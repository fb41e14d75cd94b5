-- ===== src/Sdk.antt =====
-- src/lib/rstn-sdk.ts: the class `RstnWallet`. The functions of @noble/hashes and
-- @noble/post-quantum that it calls are the fields of `Crypto`, a parameter.
pub mod Builder
pub mod Signing
pub mod NodeFormat
use resistance_network.Common.{
  ℕ, ◌-◌, Bool, true, false, Option, none, some, List, [], ◌∷◌, ◌++◌, Text, codes, length, drop,
  Result, ok, err, thrown, ◌>>=◌, starts_with, if◌then◌else◌,
}
use resistance_network.Common.Int.{ℤ}
use resistance_network.TxHelpers.Hex.{to_hex, hex_to_bytes}
use resistance_network.TxHelpers.BigInt.{Num, bigint_of_text, print_bigint}
use resistance_network.TxHelpers.Encode.{
  UnsignedTransaction, property, or_default, tx_type_to_pascal, raw_address, payload_to_bytes,
  hash_transaction,
}

pub record KeyPair : Type 0 where
  pub public_key : List ℕ
  pub secret_key : List ℕ

pub record Crypto : Type 0 where
  pub keccak_512 : List ℕ → List ℕ
  pub keygen : List ℕ → KeyPair
  -- message, secret key
  pub sign : List ℕ → List ℕ → List ℕ
  -- signature, message, public key
  pub verify : List ℕ → List ℕ → List ℕ → Bool

-- `interface SignedTransaction extends UnsignedTransaction`
pub record SignedTransaction : Type 0 where
  pub tx : UnsignedTransaction
  pub open tx use *
  pub from : Text
  pub signature : Text

-- The fields of a `RstnWallet`.
pub record Wallet : Type 0 where
  pub public_key : Text
  pub address : Text
  pub private_key : Option Text

unfoldable pub can_sign : Wallet → Bool
can_sign w = elim w.private_key [ none ↦ false | some k ↦ true ]

-- A private key that `!this.privateKey` lets pass: one that is there and is not empty.
abbrev pub truthy_key : Option Text → Result Text
truthy_key none = err (thrown (codes "No private key"))
truthy_key (some []) = err (thrown (codes "No private key"))
truthy_key (some (c ∷ k)) = ok (c ∷ k)

-- What `toNodeFormat` returns.
pub record NodeTransaction : Type 0 where
  pub from : List ℕ
  pub to : List ℕ
  pub value : Text
  pub nonce : Num
  pub gas_price : Text
  pub gas_limit : Num
  pub tx_type : Text
  pub payload : List ℕ
  pub signature : List ℕ

-- Its object literal, over what was converted before.
abbrev pub node_record :
    SignedTransaction → List ℕ → List ℕ → List ℕ → List ℕ → ℤ → ℤ → NodeTransaction
node_record tx from_bytes to_bytes sig_bytes payload_bytes value gas_price = record {
  from = from_bytes;
  to = to_bytes;
  value = print_bigint value;
  nonce = tx.nonce;
  gas_price = print_bigint gas_price;
  gas_limit = tx.gas_limit;
  tx_type = or_default (property tx.tx_type tx_type_to_pascal) (codes "Transfer");
  payload = payload_bytes;
  signature = sig_bytes;
}

unfoldable pub to_node_format : SignedTransaction → Result NodeTransaction
to_node_format tx = do
  from_bytes ← hex_to_bytes tx.from
  to_bytes ← hex_to_bytes (raw_address tx.to)
  sig_bytes ← hex_to_bytes tx.signature
  payload_bytes ← payload_to_bytes tx.payload
  value ← bigint_of_text tx.value
  gas_price ← bigint_of_text tx.gas_price
  ok (node_record tx from_bytes to_bytes sig_bytes payload_bytes value gas_price)

module _ (crypto : Crypto) where
  open crypto use {keccak_512, keygen, sign, verify}

  unfoldable pub derive_address : List ℕ → Text
  derive_address public_key =
      let hash = keccak_512 public_key in codes "rstn1" ++ to_hex (drop (length hash - 20) hash)

  -- The seed is what `crypto.getRandomValues` filled in.
  unfoldable pub generate : List ℕ → Wallet
  generate seed =
      let keys = keygen seed in
      record {
        public_key = to_hex keys.public_key;
        address = derive_address keys.public_key;
        private_key = some (to_hex keys.secret_key);
      }

  unfoldable pub sign_tx : Wallet → UnsignedTransaction → Result SignedTransaction
  sign_tx w tx = do
    private_key ← truthy_key w.private_key
    pub_key_bytes ← hex_to_bytes w.public_key
    tx_hash ← hash_transaction keccak_512 tx pub_key_bytes
    secret_key_bytes ← hex_to_bytes private_key
    ok (record { tx = tx; from = w.public_key; signature = to_hex (sign tx_hash secret_key_bytes) })

  unfoldable pub verify_signature : List ℕ → List ℕ → List ℕ → Bool
  verify_signature public_key message signature = verify signature message public_key
