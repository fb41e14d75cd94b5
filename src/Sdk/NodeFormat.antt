-- ===== src/Sdk/NodeFormat.antt =====
-- What is sent to the node against what is signed.
use resistance_network.Common.{
  ℕ, ◌%◌, ◌≡◌, ◌≢◌, refl, sym, List, [], ◌∷◌, Text, length, Result, ok, err, ok-injective, arith,
  ap, ◌∙◌,
}
use resistance_network.TxHelpers.Hex.{hex_to_bytes, strip_0x}
use resistance_network.TxHelpers.Hex.Parsing.{hex_to_bytes_iff}
use resistance_network.TxHelpers.BigInt.{int, bigint_of_text, bigint_of_num}
use resistance_network.Common.Int.{ℤ}
use resistance_network.TxHelpers.BigInt.Printing.{bigint_of_text-print_bigint}
use resistance_network.TxHelpers.Encode.{
  UnsignedTransaction, Parts, raw_address, address_hex, payload_to_bytes, tx_parts, or_default,
  property, tx_type_to_u8,
}
use resistance_network.Sdk.{SignedTransaction, node_record, NodeTransaction, to_node_format}

strip_0x_parity : (s : Text) → length (strip_0x s) % 2 ≡ length s % 2
unfolding strip_0x
strip_0x_parity [] = refl
strip_0x_parity (a ∷ []) = ground arith
strip_0x_parity (a ∷ b ∷ s) = ground arith

-- A text that `hexToBytes` reads needs no padding.
address_hex_of_ok :
    (raw : Text) (bs : List ℕ) → raw ≢ [] → hex_to_bytes raw ≡ ok bs → address_hex raw ≡ raw
unfolding address_hex
address_hex_of_ok [] bs h e = absurd (h refl)
address_hex_of_ok (c ∷ s) bs h e =
    let fits = (hex_to_bytes_iff (c ∷ s) bs).0 e in
    ground (arith, fits.0.0, strip_0x_parity (c ∷ s))

-- The parts of a transaction that the node receives are those that were signed.
pub record Agrees (p : Parts) (n : NodeTransaction) : Type 0 where
  pub to : p.to_bytes ≡ n.to
  pub value : bigint_of_text n.value ≡ ok p.value
  pub nonce : bigint_of_num n.nonce ≡ ok p.nonce
  pub gas_price : bigint_of_text n.gas_price ≡ ok p.gas_price
  pub gas_limit : bigint_of_num n.gas_limit ≡ ok p.gas_limit
  pub payload : p.payload_bytes ≡ n.payload

-- What a success of `toNodeFormat` says of its conversions.
record Converted (tx : SignedTransaction) (n : NodeTransaction) (value gas_price : ℤ) : Type 0 where
  from : hex_to_bytes tx.from ≡ ok n.from
  to : hex_to_bytes (raw_address tx.to) ≡ ok n.to
  signature : hex_to_bytes tx.signature ≡ ok n.signature
  payload : payload_to_bytes tx.payload ≡ ok n.payload
  value_read : bigint_of_text tx.value ≡ ok value
  gas_price_read : bigint_of_text tx.gas_price ≡ ok gas_price
  built : n ≡ node_record tx n.from n.to n.signature n.payload value gas_price

invert :
    (tx : SignedTransaction) (n : NodeTransaction) (r0 r1 r2 r3 : Result (List ℕ))
    (r4 r5 : Result ℤ)
    → hex_to_bytes tx.from ≡ r0
    → hex_to_bytes (raw_address tx.to) ≡ r1
    → hex_to_bytes tx.signature ≡ r2
    → payload_to_bytes tx.payload ≡ r3
    → bigint_of_text tx.value ≡ r4
    → bigint_of_text tx.gas_price ≡ r5
    → to_node_format tx ≡ ok n
    → (value : ℤ) × (gas_price : ℤ) × Converted tx n value gas_price
unfolding to_node_format
invert tx n (ok a) (ok b) (ok c) (ok d) (ok v) (ok g) e0 e1 e2 e3 e4 e5 e =
    let built : node_record tx a b c d v g ≡ n = ok-injective (rw (e0, e1, e2, e3, e4, e5) at e) in
    (
      v,
      g,
      record {
        from = e0 ∙ ap (λ (m : NodeTransaction). ok m.from) built;
        to = e1 ∙ ap (λ (m : NodeTransaction). ok m.to) built;
        signature = e2 ∙ ap (λ (m : NodeTransaction). ok m.signature) built;
        payload = e3 ∙ ap (λ (m : NodeTransaction). ok m.payload) built;
        value_read = e4;
        gas_price_read = e5;
        built =
            sym built
            ∙ ap (λ (m : NodeTransaction). node_record tx m.from m.to m.signature m.payload v g)
                built;
      },
    )
invert tx n (err x) _ _ _ _ _ e0 e1 e2 e3 e4 e5 e = absurd (cc (rw e0 at e))
invert tx n _ (err x) _ _ _ _ e0 e1 e2 e3 e4 e5 e = absurd (cc (rw (e0, e1) at e))
invert tx n _ _ (err x) _ _ _ e0 e1 e2 e3 e4 e5 e = absurd (cc (rw (e0, e1, e2) at e))
invert tx n _ _ _ (err x) _ _ e0 e1 e2 e3 e4 e5 e = absurd (cc (rw (e0, e1, e2, e3) at e))
invert tx n _ _ _ _ (err x) _ e0 e1 e2 e3 e4 e5 e = absurd (cc (rw (e0, e1, e2, e3, e4) at e))
invert tx n _ _ _ _ _ (err x) e0 e1 e2 e3 e4 e5 e = absurd (cc (rw (e0, e1, e2, e3, e4, e5) at e))

tx_parts_of :
    (tx : UnsignedTransaction) (to payload : List ℕ) (v n g l : ℤ)
    → hex_to_bytes (address_hex (raw_address tx.to)) ≡ ok to
    → bigint_of_text tx.value ≡ ok v
    → tx.nonce ≡ int n
    → bigint_of_text tx.gas_price ≡ ok g
    → tx.gas_limit ≡ int l
    → payload_to_bytes tx.payload ≡ ok payload
    → tx_parts tx
      ≡ ok (record {
        to_bytes = to;
        value = v;
        nonce = n;
        gas_price = g;
        gas_limit = l;
        type_byte = or_default (property tx.tx_type tx_type_to_u8) 0;
        payload_bytes = payload;
      })
unfolding tx_parts bigint_of_num
tx_parts_of tx to payload v n g l e0 e1 e2 e3 e4 e5 = rw (e0, e1, e2, e3, e4, e5)

-- If `toNodeFormat` succeeds on a transaction with a recipient and with an integer nonce and gas
-- limit, then the transaction can be encoded for signing, and the object for the node holds the
-- signed fields: the same bytes, and decimal texts that read as the same integers.
pub to_node_format-Agrees :
    (signed : SignedTransaction) (n : NodeTransaction) (a b : ℤ)
    → to_node_format signed ≡ ok n
    → raw_address signed.tx.to ≢ []
    → signed.tx.nonce ≡ int a
    → signed.tx.gas_limit ≡ int b
    → (p : Parts) × (tx_parts signed.tx ≡ ok p)
      × Agrees p n
      × (hex_to_bytes signed.from ≡ ok n.from)
      × (hex_to_bytes signed.signature ≡ ok n.signature)
unfolding bigint_of_num
to_node_format-Agrees signed n a b e some_to ea eb =
    let (value, gas_price, c) = invert signed n _ _ _ _ _ _ refl refl refl refl refl refl e in
    (
      record {
        to_bytes = n.to;
        value = value;
        nonce = a;
        gas_price = gas_price;
        gas_limit = b;
        type_byte = or_default (property signed.tx.tx_type tx_type_to_u8) 0;
        payload_bytes = n.payload;
      },
      tx_parts_of signed.tx _ _ _ _ _ _
          (ap hex_to_bytes (address_hex_of_ok (raw_address signed.tx.to) n.to some_to c.to) ∙ c.to)
          c.value_read ea c.gas_price_read eb c.payload,
      record {
        to = refl;
        value =
            ap (λ (m : NodeTransaction). bigint_of_text m.value) c.built
            ∙ bigint_of_text-print_bigint value;
        nonce = ap (λ (m : NodeTransaction). bigint_of_num m.nonce) c.built ∙ ap bigint_of_num ea;
        gas_price =
            ap (λ (m : NodeTransaction). bigint_of_text m.gas_price) c.built
            ∙ bigint_of_text-print_bigint gas_price;
        gas_limit =
            ap (λ (m : NodeTransaction). bigint_of_num m.gas_limit) c.built ∙ ap bigint_of_num eb;
        payload = refl;
      },
      c.from,
      c.signature,
    )
