-- ===== src/WalletExt/History.antt =====
-- rstn-wallet/wallet-lib.js: answers of the node, and the history of transactions.
pub mod Entries
use resistance_network.Common.{
  ℕ, zero, suc, ◌++◌, Bool, true, false, not, ◌&&◌, ◌||◌, List, [], ◌∷◌, map, take, keep, length,
  Text, codes, text_eq, ltb, if◌then◌else◌, Option, none, some,
}
use resistance_network.Common.Int.{pos}
use resistance_network.TxHelpers.BigInt.{print_bigint}
use resistance_network.WalletExt.Mnemonic.{non_empty}

-- What comes of one `fetch`, whose status is not looked at.
pub data Answer {ℓ} (A : Type ℓ) : Type ℓ where
  rejected : Answer A
  rpc_error : Answer A
  null_result : Answer A
  result : A → Answer A

-- `rpcCall`: nothing stands for null and for undefined.
unfoldable pub rpc_call {ℓ} : {A : Type ℓ} → Answer A → Option A
rpc_call (result a) = some a
rpc_call _ = none

abbrev pub or_else {ℓ} : {A : Type ℓ} → Option A → A → A
or_else none b = b
or_else (some a) b = a

-- The answer is a number, or another value.
unfoldable pub get_nonce : Answer (Option ℕ) → ℕ
get_nonce a = or_else (or_else (rpc_call a) none) 0

-- `text || other`
abbrev pub text_or_else : Option Text → Text → Text
text_or_else none t = t
text_or_else (some []) t = t
text_or_else (some (c ∷ s)) t = c ∷ s

-- The answer of "rstn_getBalance"; a nonce that is no number is absent.
pub record Balance : Type 0 where
  pub balance : Option Text
  pub balance_usd : Option Text
  pub nonce : Option ℕ

abbrev pub no_balance : Balance
no_balance = record { balance = none; balance_usd = none; nonce = none }

pub record Portfolio : Type 0 where
  pub balance : Text
  pub balance_usd : Text
  pub nonce : ℕ

unfoldable pub get_balance : Answer Balance → Portfolio
get_balance a =
    let r = or_else (rpc_call a) no_balance in
    record {
      balance = text_or_else r.balance (codes "0.00");
      balance_usd = text_or_else r.balance_usd (codes "0.00");
      nonce = or_else r.nonce 0;
    }

-- An entry of the history.
pub record Tx : Type 0 where
  pub hash : Text
  pub direction : Text
  pub amount : Text
  pub to : Text
  pub from : Text
  pub status : Text
  pub timestamp : ℕ
  pub address : Text

abbrev pub has_hash : Text → List Tx → Bool
has_hash h [] = false
has_hash h (t ∷ ts) = text_eq t.hash h || has_hash h ts

unfoldable pub record_tx : Tx → List Tx → List Tx
record_tx tx history =
    if non_empty tx.hash && has_hash tx.hash history then history else take 200 (tx ∷ history)

-- A transaction as the node gives it.
pub record OnchainTx : Type 0 where
  pub hash : Option Text
  pub tx_hash : Option Text
  pub to : Option Text
  pub from : Option Text
  pub amount : Option Text
  pub value : Option Text
  pub timestamp : Option ℕ
  pub block_time : Option ℕ

-- `n || other`
abbrev pub number_or_else : Option ℕ → ℕ → ℕ
number_or_else none n = n
number_or_else (some zero) n = n
number_or_else (some (suc k)) n = suc k

module _ (to_lower_case : Text → Text) where
  abbrev pub direction_of : Text → Text → Text
  direction_of address [] = codes "out"
  direction_of address (c ∷ to) =
      if text_eq (to_lower_case (c ∷ to)) (to_lower_case address) then codes "in" else codes "out"

  unfoldable pub onchain_tx : ℕ → Text → OnchainTx → Tx
  onchain_tx now address t = record {
    hash = text_or_else t.hash (text_or_else t.tx_hash []);
    direction = direction_of address (text_or_else t.to []);
    amount = text_or_else t.amount (text_or_else t.value (codes "0"));
    to = text_or_else t.to [];
    from = text_or_else t.from [];
    status = codes "confirmed";
    timestamp = number_or_else t.timestamp (number_or_else t.block_time now);
    address = address;
  }

  abbrev pub tx_key : Tx → Text
  tx_key t =
      text_or_else (some t.hash) (t.to ++ b'-' ∷ t.amount ++ b'-' ∷ print_bigint (pos t.timestamp))

  abbrev pub seen_key : Text → List Text → Bool
  seen_key k [] = false
  seen_key k (j ∷ js) = text_eq j k || seen_key k js

  -- The loop: the first entry of every key that was not seen.
  unfoldable pub merge_new : List Text → List Tx → List Tx
  merge_new seen [] = []
  merge_new seen (t ∷ ts) =
      let skipped = merge_new seen ts in
      let pushed = t ∷ merge_new (tx_key t ∷ seen) ts in
      if seen_key (tx_key t) seen then skipped else pushed

  unfoldable pub merge_txs : ℕ → Text → List Tx → Answer (List OnchainTx) → List Tx
  merge_txs now address history a =
      let local = keep (λ t. text_eq t.address address) history in
      let onchain = map (onchain_tx now address) (or_else (rpc_call a) []) in
      take 50 (merge_new [] (local ++ onchain))
