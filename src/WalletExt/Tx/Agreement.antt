-- ===== src/WalletExt/Tx/Agreement.antt =====
-- The extension's encoding against the SDK's.
use resistance_network.Common.{
  ℕ, ◌+◌, ◌≡◌, ◌≢◌, refl, sym, ap, ◌∙◌, String, List, [], ◌∷◌, map, Text, codes, text_eq, length,
  All, Result, err, ok, ◌>>=◌, Bool-cases, inl, inr,
}
use mathlib.Core.Path.{fun_ext}
use resistance_network.Common.Int.{ℤ}
use resistance_network.TxHelpers.LittleEndian.{u128_to_le_bytes, u64_to_le_bytes}
use resistance_network.TxHelpers.LittleEndian.Residue.{le_bytes_residue}
use resistance_network.TxHelpers.BigInt.{int, bigint_of_text, bigint_of_num}
use resistance_network.TxHelpers.Encode
use resistance_network.TxHelpers.Encode.{
  Parts, tx_parts, property, or_default, set_bytes, put, put_byte, assemble, raw_address,
  tx_type_to_pascal,
}
use resistance_network.Sdk.{NodeTransaction, SignedTransaction, to_node_format}
use resistance_network.Sdk.NodeFormat.{to_node_format-Agrees}
use resistance_network.Adapter.Tags.{type_byte_lem, tx_type_lem}
use resistance_network.WalletExt.Tx.{tx_type_to_u8, advance, fill_buffer, canonical_encode_tx}

advance-put : (n : ℕ) (xs : List ℕ) → n ≡ length xs → advance n xs ≡ put xs
unfolding advance put
advance-put n xs e =
    fun_ext (λ s. ap (λ (k : ℕ). set_bytes s.0 xs s.1 >>= λ buf. ok (buf, s.1 + k)) e)

-- The parts of a transaction for the node whose numbers are these.
abbrev pub parts_of : NodeTransaction → ℤ → ℤ → ℤ → ℤ → Parts
parts_of tx v n g l = record {
  to_bytes = tx.to;
  value = v;
  nonce = n;
  gas_price = g;
  gas_limit = l;
  type_byte = or_default (property tx.tx_type tx_type_to_u8) 0;
  payload_bytes = tx.payload;
}

-- The last write, whose offset is left.
last_write :
    (xs : List ℕ) (s : List ℕ × ℕ) → set_bytes s.0 xs s.1 ≡ (put xs s >>= λ done. ok done.0)
unfolding put
last_write xs s = go (set_bytes s.0 xs s.1)
  where
    finished : List ℕ → Result (List ℕ × ℕ)
    finished buf = ok (buf, s.1 + length xs)

    go : (r : Result (List ℕ)) → r ≡ ((r >>= λ buf. finished buf) >>= λ done. ok done.0)
    go (err e) = refl
    go (ok buf) = refl

last_writes :
    (t : ℕ) (xs : List ℕ)
    → ◌≡◌ {A = List ℕ × ℕ → Result (List ℕ)}
        (λ s. set_bytes (put_byte t s).0 xs (put_byte t s).1)
        (λ s. put xs (put_byte t s) >>= λ done. ok done.0)
last_writes t xs = fun_ext (λ s. last_write xs (put_byte t s))

fill_buffer-assemble :
    (tx : NodeTransaction) (v n g l : ℤ)
    → fill_buffer tx
        (u128_to_le_bytes v)
        (u64_to_le_bytes n)
        (u128_to_le_bytes g)
        (u64_to_le_bytes l)
      ≡ assemble tx.from (parts_of tx v n g l)
unfolding fill_buffer assemble
fill_buffer-assemble tx v n g l =
    let (v16, _, _, _, _, _) = le_bytes_residue v in
    let (_, _, _, n8, _, _) = le_bytes_residue n in
    let (g16, _, _, _, _, _) = le_bytes_residue g in
    let (_, _, _, l8, _, _) = le_bytes_residue l in
    rw (
      advance-put (length tx.from) tx.from refl,
      advance-put (length tx.to) tx.to refl,
      advance-put 16 (u128_to_le_bytes v) (sym v16),
      advance-put 8 (u64_to_le_bytes n) (sym n8),
      advance-put 16 (u128_to_le_bytes g) (sym g16),
      advance-put 8 (u64_to_le_bytes l) (sym l8),
      v16,
      n8,
      g16,
      l8,
      last_writes (or_default (property tx.tx_type tx_type_to_u8) 0) tx.payload,
    )

-- The SDK's tables side by side: key, byte, name.
abbrev tx_types : List (String × ℕ × Text)
tx_types =
    ("transfer", 0, codes "Transfer")
    ∷ ("stake", 1, codes "Stake")
    ∷ ("unstake", 2, codes "Unstake")
    ∷ ("delegate", 3, codes "Delegate")
    ∷ ("undelegate", 4, codes "Undelegate")
    ∷ ("claim", 5, codes "Claim")
    ∷ ("governance", 6, codes "Governance")
    ∷ ("contract_call", 7, codes "Contract")
    ∷ ("contract_deploy", 8, codes "ContractDeploy")
    ∷ []

abbrev pub byte_of : Text → ℕ
byte_of name = or_default (property name tx_type_to_u8) 0

names_agree :
    (key : Text) (rows : List (String × ℕ × Text))
    → All (λ r. byte_of r.2 ≡ r.1) rows
    → byte_of (or_default (property key (map (λ r. (r.0, r.2)) rows)) (codes "Transfer"))
      ≡ or_default (property key (map (λ r. (r.0, r.1)) rows)) 0
names_agree key [] h = refl
names_agree key (r ∷ rows) h = elim (Bool-cases (text_eq (codes r.0) key)) [
  | inl here ↦ rw here h.0
  | inr other ↦ rw other (names_agree key rows h.1)
]

-- The name that the SDK sends stands for the byte that it signs.
byte_of-name :
    (key : Text)
    → byte_of (or_default (property key tx_type_to_pascal) (codes "Transfer"))
      ≡ or_default (property key Encode.tx_type_to_u8) 0
byte_of-name key =
    names_agree key tx_types
      (refl, (refl, (refl, (refl, (refl, (refl, (refl, (refl, (refl, tt)))))))))

pub encode_parts :
    (tx : NodeTransaction) (v n g l : ℤ)
    → bigint_of_text tx.value ≡ ok v
    → bigint_of_num tx.nonce ≡ ok n
    → bigint_of_text tx.gas_price ≡ ok g
    → bigint_of_num tx.gas_limit ≡ ok l
    → canonical_encode_tx tx ≡ assemble tx.from (parts_of tx v n g l)
unfolding canonical_encode_tx
encode_parts tx v n g l ev en eg el = rw (ev, en, eg, el) (fill_buffer-assemble tx v n g l)

same_parts :
    (n : NodeTransaction) (p : Parts)
    → byte_of n.tx_type ≡ p.type_byte
    → n.to ≡ p.to_bytes
    → n.payload ≡ p.payload_bytes
    → parts_of n p.value p.nonce p.gas_price p.gas_limit ≡ p
same_parts n p byte to payload = λ i. record {
  to_bytes = to i;
  value = p.value;
  nonce = p.nonce;
  gas_price = p.gas_price;
  gas_limit = p.gas_limit;
  type_byte = byte i;
  payload_bytes = payload i;
}

-- The object that `toNodeFormat` makes of a transaction with a recipient and with an integer nonce and
-- gas limit encodes, in the extension, to the bytes that the SDK signs: the two encoders agree, field
-- by field and for every type of transaction, known or not.
pub canonical_encode_tx-to_node_format :
    (signed : SignedTransaction) (n : NodeTransaction) (a b : ℤ)
    → to_node_format signed ≡ ok n
    → raw_address signed.tx.to ≢ []
    → signed.tx.nonce ≡ int a
    → signed.tx.gas_limit ≡ int b
    → canonical_encode_tx n ≡ Encode.canonical_encode_tx signed.tx n.from
unfolding Encode.canonical_encode_tx
canonical_encode_tx-to_node_format signed n a b e some_to ea eb =
    let (p, encoded, agrees, _, _) = to_node_format-Agrees signed n a b e some_to ea eb in
    let byte : byte_of n.tx_type ≡ p.type_byte =
      ap byte_of (tx_type_lem signed n e)
      ∙ byte_of-name signed.tx.tx_type
      ∙ sym (type_byte_lem signed.tx p encoded) in
    encode_parts n p.value p.nonce p.gas_price p.gas_limit agrees.value agrees.nonce
      agrees.gas_price agrees.gas_limit
    ∙ ap (assemble n.from) (same_parts n p byte (sym agrees.to) (sym agrees.payload))
    ∙ rw encoded
