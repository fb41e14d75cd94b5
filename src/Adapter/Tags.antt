-- ===== src/Adapter/Tags.antt =====
-- The type of transaction that the adapter signs.
use resistance_network.Common.{
  ℕ, ◌≡◌, refl, sym, ap, ◌∙◌, ok-injective, Text, codes, Result, ok, err, ◌>>=◌,
}
use resistance_network.TxHelpers.Hex.{hex_to_bytes}
use resistance_network.TxHelpers.BigInt.{Num, bigint_of_text, bigint_of_num}
use resistance_network.TxHelpers.Encode.{
  UnsignedTransaction, Parts, tx_parts, address_hex, raw_address, payload_to_bytes, property,
  or_default, tx_type_to_u8, tx_type_to_pascal,
}
use resistance_network.Sdk.{SignedTransaction, NodeTransaction, node_record, to_node_format}
use resistance_network.Adapter.{Kind, SignParams}
use resistance_network.Adapter.Signing.{unsigned_tx}

-- The type of transaction that reaches the node for each kind: its byte and its name.
abbrev pub wire_type : Kind → ℕ × Text
wire_type Kind.transfer = (0, codes "Transfer")
wire_type Kind.stake = (1, codes "Stake")
wire_type Kind.unstake = (2, codes "Unstake")
wire_type Kind.delegate = (3, codes "Delegate")
wire_type Kind.claim = (5, codes "Claim")
wire_type Kind.governance = (6, codes "Governance")
wire_type Kind.contract_deploy = (0, codes "Transfer")
wire_type Kind.contract_call = (0, codes "Transfer")

-- What every result of six steps has in common.
of_six_steps :
    {A B C D E F G : Type 0} {H : Type 0} (a : Result A) (b : Result B) (c : Result C)
    (d : Result D) (e : Result E) (f : Result F) (make : A → B → C → D → E → F → G) (part : G → H)
    (value : H) (g : G)
    → ((u : A) (v : B) (w : C) (x : D) (y : E) (z : F) → part (make u v w x y z) ≡ value)
    → (a >>= λ u. b >>= λ v. c >>= λ w. d >>= λ x. e >>= λ y. f >>= λ z. ok (make u v w x y z))
      ≡ ok g
    → part g ≡ value
of_six_steps (ok a) (ok b) (ok c) (ok d) (ok e) (ok f) make part value g same h =
    ap part (sym (ok-injective h)) ∙ same a b c d e f
of_six_steps (err x) b c d e f make part value g same h = cc
of_six_steps (ok a) (err x) c d e f make part value g same h = cc
of_six_steps (ok a) (ok b) (err x) d e f make part value g same h = cc
of_six_steps (ok a) (ok b) (ok c) (err x) e f make part value g same h = cc
of_six_steps (ok a) (ok b) (ok c) (ok d) (err x) f make part value g same h = cc
of_six_steps (ok a) (ok b) (ok c) (ok d) (ok e) (err x) make part value g same h = cc

pub type_byte_lem :
    (tx : UnsignedTransaction) (p : Parts)
    → tx_parts tx ≡ ok p
    → p.type_byte ≡ or_default (property tx.tx_type tx_type_to_u8) 0
unfolding tx_parts
type_byte_lem tx p h =
    of_six_steps (hex_to_bytes (address_hex (raw_address tx.to))) (bigint_of_text tx.value)
      (bigint_of_num tx.nonce) (bigint_of_text tx.gas_price) (bigint_of_num tx.gas_limit)
      (payload_to_bytes tx.payload)
      (λ u v w x y z. record {
        to_bytes = u;
        value = v;
        nonce = w;
        gas_price = x;
        gas_limit = y;
        type_byte = or_default (property tx.tx_type tx_type_to_u8) 0;
        payload_bytes = z;
      })
      (λ q. q.type_byte) _ p (λ u v w x y z. refl) h

pub tx_type_lem :
    (tx : SignedTransaction) (n : NodeTransaction)
    → to_node_format tx ≡ ok n
    → n.tx_type ≡ or_default (property tx.tx_type tx_type_to_pascal) (codes "Transfer")
unfolding to_node_format
tx_type_lem tx n h =
    of_six_steps (hex_to_bytes tx.from) (hex_to_bytes (raw_address tx.to))
      (hex_to_bytes tx.signature) (payload_to_bytes tx.payload) (bigint_of_text tx.value)
      (bigint_of_text tx.gas_price) (λ u v w x y z. node_record tx u v w x y z) (λ q. q.tx_type) _ n
      (λ u v w x y z. refl) h

byte_of_kind :
    (p : SignParams) (nonce : Num)
    → or_default (property (unsigned_tx p nonce).tx_type tx_type_to_u8) 0 ≡ (wire_type p.kind).0
unfolding unsigned_tx
byte_of_kind p nonce = table p.kind
  where
    table :
        (k : Kind)
        → or_default (property (unsigned_tx (record p { kind = k }) nonce).tx_type tx_type_to_u8) 0
          ≡ (wire_type k).0
    table Kind.transfer = refl
    table Kind.stake = refl
    table Kind.unstake = refl
    table Kind.delegate = refl
    table Kind.claim = refl
    table Kind.governance = refl
    table Kind.contract_deploy = refl
    table Kind.contract_call = refl

name_of_kind :
    (p : SignParams) (nonce : Num)
    → or_default (property (unsigned_tx p nonce).tx_type tx_type_to_pascal) (codes "Transfer")
      ≡ (wire_type p.kind).1
unfolding unsigned_tx
name_of_kind p nonce = table p.kind
  where
    table :
        (k : Kind)
        → or_default
            (property (unsigned_tx (record p { kind = k }) nonce).tx_type tx_type_to_pascal)
            (codes "Transfer")
          ≡ (wire_type k).1
    table Kind.transfer = refl
    table Kind.stake = refl
    table Kind.unstake = refl
    table Kind.delegate = refl
    table Kind.claim = refl
    table Kind.governance = refl
    table Kind.contract_deploy = refl
    table Kind.contract_call = refl

-- If a transaction that the adapter builds can be encoded and formatted for the node, then it is hashed
-- with the type byte of `wire_type` and the object for the node carries its name: a contract's
-- deployment and a contract's call are signed and sent as transfers, every other kind as itself.
pub unsigned_tx-wire_type :
    (p : SignParams) (nonce : Num) (parts : Parts) (signed : SignedTransaction)
    (n : NodeTransaction)
    → signed.tx ≡ unsigned_tx p nonce
    → tx_parts signed.tx ≡ ok parts
    → to_node_format signed ≡ ok n
    → (parts.type_byte ≡ (wire_type p.kind).0) × (n.tx_type ≡ (wire_type p.kind).1)
unsigned_tx-wire_type p nonce parts signed n same encoded formatted = (
  type_byte_lem signed.tx parts encoded
      ∙ (ap (λ (tx : UnsignedTransaction). or_default (property tx.tx_type tx_type_to_u8) 0) same
          ∙ byte_of_kind p nonce),
  tx_type_lem signed n formatted
      ∙ (ap
            (λ (tx : UnsignedTransaction).
              or_default (property tx.tx_type tx_type_to_pascal) (codes "Transfer"))
            same
          ∙ name_of_kind p nonce),
)
