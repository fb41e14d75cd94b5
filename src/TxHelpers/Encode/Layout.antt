-- ===== src/TxHelpers/Encode/Layout.antt =====
-- The bytes of the canonical encoding, in their order.
use resistance_network.Common.{
  ℕ, zero, suc, ◌+◌, ◌%◌, ◌≡◌, refl, false, List, [], ◌∷◌, ◌++◌, ltb, length, drop, replicate,
  length-append, length-replicate, take-append, ok, ◌>>=◌, arith, ap, ◌∙◌, append_assoc, append-nil,
}
use mathlib.Core.Path.{fun_ext}
use resistance_network.TxHelpers.LittleEndian.{u128_to_le_bytes, u64_to_le_bytes}
use resistance_network.TxHelpers.LittleEndian.Residue.{le_bytes_residue}
use resistance_network.TxHelpers.Encode.{
  UnsignedTransaction, Parts, tx_parts, put, set, put_byte, assemble, canonical_encode_tx,
}

abbrev pub zeros : ℕ → List ℕ
zeros n = replicate n 0

-- The fields behind one another.
abbrev pub layout : List ℕ → Parts → List ℕ
layout from_bytes p =
    from_bytes
    ++ (p.to_bytes
        ++ (u128_to_le_bytes p.value
            ++ (u64_to_le_bytes p.nonce
                ++ (u128_to_le_bytes p.gas_price
                    ++ (u64_to_le_bytes p.gas_limit ++ ((p.type_byte % 256) ∷ p.payload_bytes))))))

drop-zeros : (m n : ℕ) → drop m (zeros (m + n)) ≡ zeros n
drop-zeros zero n = ap zeros (omega arith)
drop-zeros (suc m) n =
    ap (λ (k : ℕ). drop (suc m) (zeros k)) {x = suc m + n} {y = suc (m + n)} (omega arith)
    ∙ drop-zeros m n

drop-append_add : (xs ys : List ℕ) (n : ℕ) → drop (length xs + n) (xs ++ ys) ≡ drop n ys
drop-append_add [] ys n = ap (λ (k : ℕ). drop k ys) (omega arith)
drop-append_add (x ∷ xs) ys n =
    ap (λ (k : ℕ). drop k (x ∷ xs ++ ys)) {x = suc (length xs) + n} {y = suc (length xs + n)}
      (omega arith)
    ∙ drop-append_add xs ys n

-- A write behind what is written, into zeros, appends.
put_lem :
    (xs pre : List ℕ) (n m : ℕ)
    → n ≡ length xs + m
    → put xs (pre ++ zeros n, length pre) ≡ ok ((pre ++ xs) ++ zeros m, length (pre ++ xs))
unfolding put
put_lem xs pre n m e = rw (
  fits,
  take-append pre (zeros n),
  drop-append_add pre (zeros n) (length xs),
  e,
  drop-zeros (length xs) m,
  append_assoc pre xs (zeros m),
  length-append pre xs,
)
  where
    fits : ltb (length (pre ++ zeros n)) (length pre + length xs) ≡ false
    fits = ground (arith, length-append pre (zeros n), length-replicate {A = ℕ} n 0)

set-append : (pre ys : List ℕ) (y v : ℕ) → set (pre ++ y ∷ ys) (length pre) v ≡ pre ++ v ∷ ys
set-append [] ys y v = refl
set-append (x ∷ pre) ys y v = ap (λ t. x ∷ t) (set-append pre ys y v)

put_byte_lem :
    (v : ℕ) (pre : List ℕ) (m : ℕ)
    → put_byte v (pre ++ zeros (suc m), length pre)
      ≡ ((pre ++ ((v % 256) ∷ [])) ++ zeros m, length (pre ++ ((v % 256) ∷ [])))
unfolding put_byte
put_byte_lem v pre m = rw (
  set-append pre (zeros m) 0 (v % 256),
  append_assoc pre ((v % 256) ∷ []) (zeros m),
  length-append pre ((v % 256) ∷ []),
)

pub assemble-layout :
    (from_bytes : List ℕ) (p : Parts) → assemble from_bytes p ≡ ok (layout from_bytes p)
unfolding assemble
assemble-layout from_bytes p =
    let a = from_bytes in
    let b = p.to_bytes in
    let c = u128_to_le_bytes p.value in
    let d = u64_to_le_bytes p.nonce in
    let e = u128_to_le_bytes p.gas_price in
    let f = u64_to_le_bytes p.gas_limit in
    let g = p.payload_bytes in
    let t : List ℕ = (p.type_byte % 256) ∷ [] in
    let total = length a + length b + length c + length d + length e + length f + 1 + length g in
    let m7 = length g + 0 in
    let m6 = suc m7 in
    let m5 = length f + m6 in
    let m4 = length e + m5 in
    let m3 = length d + m4 in
    let m2 = length c + m3 in
    let m1 = length b + m2 in
    rw
      (
        put_lem a [] total m1 (omega arith),
        put_lem b a m1 m2 refl,
        put_lem c (a ++ b) m2 m3 refl,
        put_lem d ((a ++ b) ++ c) m3 m4 refl,
        put_lem e (((a ++ b) ++ c) ++ d) m4 m5 refl,
        put_lem f ((((a ++ b) ++ c) ++ d) ++ e) m5 m6 refl,
        put_byte_lem p.type_byte (((((a ++ b) ++ c) ++ d) ++ e) ++ f) m7,
        put_lem g ((((((a ++ b) ++ c) ++ d) ++ e) ++ f) ++ t) m7 0 refl,
      )
      (ap ok (simp (append_assoc, append-nil)))

-- `canonicalEncodeTx` fails exactly as the conversion of its fields does. Otherwise no write leaves
-- the buffer, every byte of it is written, and it holds the public key, the address, the value, the
-- nonce, the gas price, the gas limit, the type and the payload, in that order.
pub canonical_encode_tx-layout :
    (tx : UnsignedTransaction) (from_bytes : List ℕ)
    → canonical_encode_tx tx from_bytes ≡ (tx_parts tx >>= λ p. ok (layout from_bytes p))
unfolding canonical_encode_tx
canonical_encode_tx-layout tx from_bytes =
    ap (λ k. tx_parts tx >>= k) (fun_ext (λ p. assemble-layout from_bytes p))

-- The encoding is 49 bytes longer than the public key, the address and the payload together.
length-layout :
    (from_bytes : List ℕ) (p : Parts)
    → length (layout from_bytes p)
      ≡ length from_bytes + length p.to_bytes + length p.payload_bytes + 49
length-layout from_bytes p = simp length-append (
    omega (
      arith,
      le_bytes_residue p.value,
      le_bytes_residue p.nonce,
      le_bytes_residue p.gas_price,
      le_bytes_residue p.gas_limit,
    ))
