-- ===== src/WalletExt/Background/Transfers.antt =====
-- rstn-wallet/background.js: what an open wallet asks of a node.
pub mod Verified
use resistance_network.Common.{
  ℕ, List, [], Text, codes, Option, none, some, Result, ok, err, ◌>>=◌, if◌then◌else◌,
}
use resistance_network.Common.Int.{pos}
use resistance_network.TxHelpers.BigInt.{print_bigint, int}
use resistance_network.Sdk.{NodeTransaction}
use resistance_network.WalletExt.Platform.{Keypair, Platform}
use resistance_network.WalletExt.Tx.{hash_transaction, build_node_tx}
use resistance_network.WalletExt.Amount.{parse_amount_wei}
use resistance_network.WalletExt.History.{
  Answer, rpc_call, get_nonce, text_or_else, number_or_else, Tx, record_tx, OnchainTx, merge_txs,
}
use resistance_network.WalletExt.Background.{
  Wallet, Reply, sent, claimed, txs, failure, type_failure, no_reply, refusal, closed, current,
}

-- The answer of "rstn_faucetClaim".
pub record Claim : Type 0 where
  pub hash : Option Text
  pub amount : Option ℕ

-- The node, at the moment of a message.
pub record Node : Type 0 where
  pub now : ℕ
  pub nonce_of : Text → Answer (Option ℕ)
  pub broadcast_tx : NodeTransaction → Answer Text
  pub faucet_claim : Text → Answer Claim
  pub txs_of : Text → Answer (List OnchainTx)

unfoldable pub sign_transaction : Platform → NodeTransaction → List ℕ → Result (List ℕ)
sign_transaction platform tx secret_key = do
  hash ← hash_transaction platform.crypto.keccak_512 tx
  ok (platform.crypto.sign hash secret_key)

-- The signed transaction of "WALLET_SEND".
unfoldable pub transfer : Platform → Keypair → ℕ → Text → Text → Result NodeTransaction
transfer platform kp nonce to amount = do
  amount_wei ← parse_amount_wei amount
  let node_tx : NodeTransaction =
      build_node_tx kp.public_key to (print_bigint (pos amount_wei)) (int (pos nonce))
        (codes "1000000000") (int (pos 21000)) (codes "Transfer") []
  signature ← sign_transaction platform node_tx kp.secret_key
  ok (record node_tx { signature = signature })

abbrev pub outgoing : ℕ → Keypair → Text → Text → Text → Tx
outgoing now kp to amount hash = record {
  hash = hash;
  direction = codes "out";
  amount = amount;
  to = to;
  from = kp.address;
  status = codes "pending";
  timestamp = now;
  address = kp.address;
}

-- The answer to the broadcast: null, or the hash.
abbrev pub broadcast_answered : ℕ → Keypair → Text → Text → Option Text → Wallet → Wallet × Reply
broadcast_answered now kp to amount none w =
    (w, refusal (codes "Node rejected transaction (signature verification or RPC failed)"))
broadcast_answered now kp to amount (some hash) w =
    (record w { tx_history = record_tx (outgoing now kp to amount hash) w.tx_history }, sent hash)

abbrev pub broadcast :
    Node → Keypair → Text → Text → Result NodeTransaction → Wallet → Wallet × Reply
broadcast node kp to amount (err e) w = (w, failure e)
broadcast node kp to amount (ok node_tx) w =
    broadcast_answered node.now kp to amount (rpc_call (node.broadcast_tx node_tx)) w

-- "WALLET_SEND"
unfoldable pub send : Platform → Node → Text → Text → Wallet → Wallet × Reply
send platform node to amount w =
    if closed w then (w, refusal (codes "Wallet locked -- unlock first")) else elim (current w) [
      | none ↦ (w, type_failure)
      | some kp ↦
          let nonce = get_nonce (node.nonce_of kp.address) in
          broadcast node kp to amount (transfer platform kp nonce to amount) w
    ]

-- "WALLET_GET_TXS"
unfoldable pub get_txs : Platform → Node → Wallet → Reply
get_txs platform node w = if closed w then txs [] else elim (current w) [
  | none ↦ no_reply
  | some kp ↦
      txs
        (merge_txs platform.to_lower_case node.now kp.address w.tx_history (node.txs_of kp.address))
]

abbrev pub from_faucet : ℕ → Keypair → Claim → Tx
from_faucet now kp c = record {
  hash = text_or_else c.hash [];
  direction = codes "in";
  amount = print_bigint (pos (number_or_else c.amount 1000));
  to = kp.address;
  from = codes "faucet";
  status = codes "confirmed";
  timestamp = now;
  address = kp.address;
}

-- "WALLET_FAUCET"
unfoldable pub faucet : Node → Wallet → Wallet × Reply
faucet node w = if closed w then (w, refusal (codes "Wallet locked")) else elim (current w) [
  | none ↦ (w, type_failure)
  | some kp ↦ elim (rpc_call (node.faucet_claim kp.address)) [
    | none ↦ (w, refusal (codes "Faucet request failed (node offline or cooldown active)"))
    | some c ↦ (
      record w { tx_history = record_tx (from_faucet node.now kp c) w.tx_history },
      claimed c.amount c.hash,
    )
  ]
]
