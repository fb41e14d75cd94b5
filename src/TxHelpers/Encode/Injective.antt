-- ===== src/TxHelpers/Encode/Injective.antt =====
-- The encoding determines the transaction that it was made from.
use resistance_network.Common.{
  ℕ, ◌^◌, ◌<◌, ◌≡◌, sym, List, ◌++◌, length, append-cancel, arith, ap, ◌∙◌,
}
use resistance_network.Common.Int.{ℤ, pos, negsuc}
use resistance_network.TxHelpers.LittleEndian.{u128_to_le_bytes, u64_to_le_bytes}
use resistance_network.TxHelpers.LittleEndian.Residue.{
  le_bytes_residue, u128_to_le_bytes-injective, u64_to_le_bytes-injective,
}
use resistance_network.TxHelpers.Encode.{Parts, assemble}
use resistance_network.TxHelpers.Encode.Layout.{layout, assemble-layout}

-- An integer from 0 up to 2^w.
abbrev pub IsWord : ℕ → ℤ → Type 0
IsWord w (pos n) = n < 2 ^ w
IsWord w (negsuc n) = ⊥

-- The fields fit the widths of the encoding.
pub record IsEncodable (p : Parts) : Type 0 where
  pub value_fits : IsWord 128 p.value
  pub nonce_fits : IsWord 64 p.nonce
  pub gas_price_fits : IsWord 128 p.gas_price
  pub gas_limit_fits : IsWord 64 p.gas_limit
  pub type_fits : p.type_byte < 256

word_128 : (a b : ℤ) → IsWord 128 a → IsWord 128 b → u128_to_le_bytes a ≡ u128_to_le_bytes b → a ≡ b
word_128 (pos a) (pos b) ha hb e = ap pos (u128_to_le_bytes-injective a b ha hb e)
word_128 (pos a) (negsuc b) ha hb e = absurd hb
word_128 (negsuc a) b ha hb e = absurd ha

word_64 : (a b : ℤ) → IsWord 64 a → IsWord 64 b → u64_to_le_bytes a ≡ u64_to_le_bytes b → a ≡ b
word_64 (pos a) (pos b) ha hb e = ap pos (u64_to_le_bytes-injective a b ha hb e)
word_64 (pos a) (negsuc b) ha hb e = absurd hb
word_64 (negsuc a) b ha hb e = absurd ha

-- The first sixteen and the first eight bytes.
cut_128 :
    (a b : ℤ) (us vs : List ℕ)
    → IsWord 128 a
    → IsWord 128 b
    → u128_to_le_bytes a ++ us ≡ u128_to_le_bytes b ++ vs
    → (a ≡ b) × (us ≡ vs)
cut_128 a b us vs ha hb e =
    let (head, tail) =
      append-cancel (u128_to_le_bytes a) (u128_to_le_bytes b) us vs
        ((le_bytes_residue a).0 ∙ sym (le_bytes_residue b).0) e in
    (word_128 a b ha hb head, tail)

cut_64 :
    (a b : ℤ) (us vs : List ℕ)
    → IsWord 64 a
    → IsWord 64 b
    → u64_to_le_bytes a ++ us ≡ u64_to_le_bytes b ++ vs
    → (a ≡ b) × (us ≡ vs)
cut_64 a b us vs ha hb e =
    let (head, tail) =
      append-cancel (u64_to_le_bytes a) (u64_to_le_bytes b) us vs
        ((le_bytes_residue a).3 ∙ sym (le_bytes_residue b).3) e in
    (word_64 a b ha hb head, tail)

layout-injective :
    (pub_a pub_b : List ℕ) (p q : Parts)
    → IsEncodable p
    → IsEncodable q
    → length pub_a ≡ length pub_b
    → length p.to_bytes ≡ length q.to_bytes
    → layout pub_a p ≡ layout pub_b q
    → (pub_a ≡ pub_b) × (p ≡ q)
layout-injective pub_a pub_b p q hp hq same_pub same_to e =
    let (e0, r0) = append-cancel pub_a pub_b _ _ same_pub e in
    let (e1, r1) = append-cancel p.to_bytes q.to_bytes _ _ same_to r0 in
    let (e2, r2) = cut_128 p.value q.value _ _ hp.value_fits hq.value_fits r1 in
    let (e3, r3) = cut_64 p.nonce q.nonce _ _ hp.nonce_fits hq.nonce_fits r2 in
    let (e4, r4) = cut_128 p.gas_price q.gas_price _ _ hp.gas_price_fits hq.gas_price_fits r3 in
    let (e5, r5) = cut_64 p.gas_limit q.gas_limit _ _ hp.gas_limit_fits hq.gas_limit_fits r4 in
    (e0, ground (arith, hp.type_fits, hq.type_fits))

-- Two encodings of fields that fit their widths, for public keys of one length and addresses of one
-- length, are the same bytes only if the public key and every field are the same.
pub assemble-injective :
    (pub_a pub_b : List ℕ) (p q : Parts)
    → IsEncodable p
    → IsEncodable q
    → length pub_a ≡ length pub_b
    → length p.to_bytes ≡ length q.to_bytes
    → assemble pub_a p ≡ assemble pub_b q
    → (pub_a ≡ pub_b) × (p ≡ q)
assemble-injective pub_a pub_b p q hp hq same_pub same_to e =
    layout-injective pub_a pub_b p q hp hq same_pub same_to
      (cc (e, assemble-layout pub_a p, assemble-layout pub_b q))
