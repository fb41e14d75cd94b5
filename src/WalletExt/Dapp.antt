-- ===== src/WalletExt/Dapp.antt =====
-- rstn-wallet/background.js: the requests of pages, which wait for the user's word. What follows a
-- decision, and the handling of a message of another type, runs to its end before the next event; a page's
-- request is the object that its content script hands over.
pub mod Events
pub mod Waiting
pub mod Settling
pub mod Answers
use resistance_network.Common.{
  ℕ, zero, ◌+◌, ◌%◌, Bool, true, false, List, [], ◌∷◌, ◌++◌, map, Text, codes, text_eq, keep, not,
  Option, none, some, Error, Result, ok, err, ◌>>=◌, if◌then◌else◌,
}
use resistance_network.Common.Int.{ℤ, pos}
use resistance_network.TxHelpers.Hex.{to_hex}
use resistance_network.TxHelpers.BigInt.{print_bigint, int}
use resistance_network.Json.{Json, str, obj, Fields, field, end}
use resistance_network.Sdk.{NodeTransaction}
use resistance_network.WalletExt.Platform.{Keypair, Platform}
use resistance_network.WalletExt.Bytes.{hex_to_bytes}
use resistance_network.WalletExt.Tx.{build_node_tx}
use resistance_network.WalletExt.History.{
  Answer, Balance, Portfolio, get_balance, get_nonce, rpc_call, text_or_else,
}
use resistance_network.WalletExt.Background.{Wallet, Reply, closed, current}
use resistance_network.WalletExt.Background.Transfers.{Node, sign_transaction}
use resistance_network.WalletExt.Background.Messages.{Moment}

pub data Kind : Type 0 where
  dapp_connect dapp_sign dapp_send_tx dapp_get_balance : Kind

pub data Payload : Type 0 where
  absent : Payload
  hex : Text → Payload
  bytes : List ℕ → Payload

-- A message of a page, with both spellings of its fields.
pub record DappRequest : Type 0 where
  pub kind : Kind
  pub message : Text
  pub to : Text
  pub amount : Text
  pub tx_type : Option Text
  pub tx_type_camel : Option Text
  pub gas_price : Option Text
  pub gas_price_camel : Option Text
  pub gas_limit : Option ℤ
  pub gas_limit_camel : Option ℤ
  pub payload : Payload

pub record Sender : Type 0 where
  pub tab_url : Option Text
  pub origin : Option Text

pub data DappReply : Type 0 where
  -- `{ approved: false, error }`
  refused : Text → DappReply
  -- the same, with the message of what was thrown
  failed : Error → DappReply
  -- the same, with the engine's message on a property of undefined
  type_failure : DappReply
  -- the handler rejects: nothing is sent
  no_reply : DappReply
  connected : Text → DappReply
  balance_of : Text → Portfolio → DappReply
  signature : Text → DappReply
  tx_hash : Text → DappReply
  -- what a message of another type is answered
  wallet_reply : Reply → DappReply

-- The window that asks.
pub record Window : Type 0 where
  pub id : Text
  pub kind : Kind
  pub origin : Text
  pub meta : Json

-- An entry of `pendingDapp`, with the request that its resolver goes on with.
pub record Pending : Type 0 where
  pub id : Text
  pub request : DappRequest
  pub window : Window

-- The globals.
pub record Worker : Type 0 where
  pub wallet : Wallet
  pub dapp_seq : ℕ
  pub pending : List Pending

-- The first argument is `new URL(url).origin`, which throws on what is no URL.
unfoldable pub origin_of : (Text → Option Text) → Sender → Text
origin_of url_origin s = elim s.tab_url [
  | some (c ∷ url) ↦ elim (url_origin (c ∷ url)) [ none ↦ codes "unknown" | some origin ↦ origin ]
  | _ ↦ text_or_else s.origin (codes "unknown")
]

-- `a || b`, where `b` may be undefined
abbrev pub either_text : Option Text → Option Text → Option Text
either_text (some (c ∷ s)) b = some (c ∷ s)
either_text _ b = b

-- An undefined field is left out.
abbrev pub optional_field : Text → Option Text → Fields → Fields
optional_field name none fields = fields
optional_field name (some value) fields = field name (str value) fields

unfoldable pub meta_of : DappRequest → Json
meta_of r = elim r.kind [
  | Kind.dapp_sign ↦ obj (field (codes "message") (str r.message) end)
  | Kind.dapp_send_tx ↦ obj (
      field (codes "to") (str r.to) (
        field (codes "amount") (str r.amount)
          (optional_field (codes "tx_type") (either_text r.tx_type r.tx_type_camel) end)))
  | _ ↦ obj end
]

abbrev pub dapp_id : ℕ → Text
dapp_id n = codes "dapp_" ++ print_bigint (pos n)

-- The window that is opened, and what waits for it.
abbrev pub asked : DappRequest → Text → Text → Pending
asked r origin id = record {
  id = id;
  request = r;
  window = record { id = id; kind = r.kind; origin = origin; meta = meta_of r };
}

-- `requestConfirmation`
unfoldable pub request_confirmation : DappRequest → Text → Worker → Worker
request_confirmation r origin s =
    let n = s.dapp_seq + 1 in
    record s { dapp_seq = n; pending = s.pending ++ asked r origin (dapp_id n) ∷ [] }

-- `a || b` on numbers
abbrev pub integer_or : Option ℤ → ℤ → ℤ
integer_or none d = d
integer_or (some (pos zero)) d = d
integer_or (some n) d = n

abbrev pub payload_bytes : Payload → List ℕ
payload_bytes Payload.absent = []
payload_bytes (Payload.hex s) = hex_to_bytes s
payload_bytes (Payload.bytes bs) = map (λ b. b % 256) bs

-- The signed transaction of "DAPP_SEND_TX".
unfoldable pub dapp_tx : Platform → Keypair → ℕ → DappRequest → Result NodeTransaction
dapp_tx platform kp nonce r = do
  let node_tx : NodeTransaction =
      build_node_tx kp.public_key r.to r.amount (int (pos nonce))
        (text_or_else r.gas_price (text_or_else r.gas_price_camel (codes "1000000000")))
        (int (integer_or r.gas_limit (integer_or r.gas_limit_camel (pos 21000))))
        (text_or_else r.tx_type (text_or_else r.tx_type_camel (codes "Transfer")))
        (payload_bytes r.payload)
  signed ← sign_transaction platform node_tx kp.secret_key
  ok (record node_tx { signature = signed })

abbrev pub dapp_broadcast : Node → Result NodeTransaction → DappReply
dapp_broadcast node (err e) = failed e
dapp_broadcast node (ok tx) = elim (rpc_call (node.broadcast_tx tx)) [
  | none ↦ refused (codes "Node rejected transaction")
  | some hash ↦ tx_hash hash
]

-- What an approved request is answered from the active account.
unfoldable pub grant : Platform → Moment → DappRequest → Keypair → DappReply
grant platform m r kp = elim r.kind [
  | Kind.dapp_connect ↦ connected kp.address
  | Kind.dapp_get_balance ↦ balance_of kp.address (get_balance (m.balance_of kp.address))
  | Kind.dapp_sign ↦
      signature (to_hex (platform.crypto.sign (platform.utf8 r.message) kp.secret_key))
  | Kind.dapp_send_tx ↦
      dapp_broadcast m.node (dapp_tx platform kp (get_nonce (m.node.nonce_of kp.address)) r)
]

-- Without an account, its fields cannot be read: the sending catches this, the others do not.
abbrev pub without_account : Kind → DappReply
without_account Kind.dapp_send_tx = type_failure
without_account _ = no_reply

unfoldable pub finish : Platform → Moment → Bool → DappRequest → Wallet → DappReply
finish platform m approved r w =
    if approved
    then elim (current w) [ none ↦ without_account r.kind | some kp ↦ grant platform m r kp ]
    else refused (codes "User rejected request")
