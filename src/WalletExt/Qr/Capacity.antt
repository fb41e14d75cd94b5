-- ===== src/WalletExt/Qr/Capacity.antt =====
-- The data codewords fill the version that is chosen.
use resistance_network.Common.{
  ℕ, zero, suc, ◌+◌, ◌-◌, ◌*◌, ◌/◌, ◌%◌, ◌≤◌, ◌≡◌, refl, ap, Bool, if◌then◌else◌, ◌∙◌, true, false,
  List, [], ◌∷◌, ◌++◌, length, length-append, length-replicate, leb, replicate, Result, ok,
  ok-injective, arith,
}
use resistance_network.WalletExt.Qr.{
  Version, ecc_m, capacity, first_version, versions, choose_version, bits, all_bits, stream_bytes,
  total_data, min, padded_bits, pad_bytes, data_codewords,
}

length-bits : (val n : ℕ) → length (bits val n) ≡ n
length-bits val zero = refl
length-bits val (suc n) = omega (arith, length-bits val n)

length-all_bits : (bs : List ℕ) → length (all_bits bs) ≡ 8 * length bs
length-all_bits [] = omega arith
length-all_bits (b ∷ bs) =
    omega (arith, length-append (bits b 8) (all_bits bs), length-bits b 8, length-all_bits bs)

length-stream_bytes : (n : ℕ) (bs : List ℕ) → length (stream_bytes n bs) ≡ n
unfolding stream_bytes
length-stream_bytes zero bs = refl
length-stream_bytes (suc n) bs = omega (arith, length-stream_bytes n _)

length-pad_bytes : (n a b : ℕ) → length (pad_bytes n a b) ≡ n
length-pad_bytes zero a b = refl
length-pad_bytes (suc n) a b = omega (arith, length-pad_bytes n b a)

-- With room for the terminator, the bits end with a byte.
length-padded_bits :
    (bs : List ℕ) (total n : ℕ)
    → length bs ≡ 12 + 8 * n
    → n + 2 ≤ total
    → length (padded_bits bs total) ≡ 8 * (n + 2)
unfolding padded_bits
length-padded_bits bs total n size room =
    let four : min 4 (total * 8 - length bs) ≡ 4 = ground arith in
    let ended = bs ++ replicate 4 0 in
    let whole : length ended ≡ 8 * (n + 2) =
      omega (arith, length-append bs (replicate 4 0), length-replicate {A = ℕ} 4 0) in
    let none_left : (8 - length ended % 8) % 8 ≡ 0 = omega (arith, whole) in
    rw four (
      length-append ended (replicate ((8 - length ended % 8) % 8) 0)
      ∙ omega (arith, whole, none_left, length-replicate {A = ℕ} ((8 - length ended % 8) % 8) 0))

capacity_room : (v : Version) → capacity v + 2 ≡ total_data (ecc_m v)
capacity_room Version.v1 = refl
capacity_room Version.v2 = refl
capacity_room Version.v3 = refl
capacity_room Version.v4 = refl
capacity_room Version.v5 = refl

leb_le : (a b : ℕ) → leb a b ≡ true → a ≤ b
leb_le a b h = ground arith

tested_version :
    (n : ℕ) (u v : Version) (r : Result Version) (b : Bool)
    → leb n (capacity u) ≡ b
    → (if b then ok u else r) ≡ ok v
    → (r ≡ ok v → n ≤ capacity v)
    → n ≤ capacity v
tested_version n u v r true e k later =
    omega (arith, ap capacity (ok-injective k), leb_le n (capacity u) e)
tested_version n u v r false e k later = later k

first_version-capacity :
    (n : ℕ) (vs : List Version) (v : Version) → first_version n vs ≡ ok v → n ≤ capacity v
unfolding first_version
first_version-capacity n [] v h = cc
first_version-capacity n (u ∷ vs) v h =
    tested_version n u v (first_version n vs) (leb n (capacity u)) refl h
      (first_version-capacity n vs v)

-- A text whose bytes a version is found for fills its data codewords exactly: with the mode, the length
-- and the terminator there is room for all bytes, and what is left over is padded.
pub length-data_codewords :
    (bytes : List ℕ) (v : Version)
    → choose_version (length bytes) ≡ ok v
    → length (data_codewords bytes v) ≡ total_data (ecc_m v)
unfolding data_codewords
length-data_codewords bytes v h =
    let n = length bytes in
    let total = total_data (ecc_m v) in
    let fits : n + 2 ≤ total =
      omega (arith, capacity_room v, first_version-capacity n versions v h) in
    let header = bits 4 4 ++ bits n 8 ++ all_bits bytes in
    let size : length header ≡ 12 + 8 * n = omega (
      arith,
      length-append (bits 4 4 ++ bits n 8) (all_bits bytes),
      length-append (bits 4 4) (bits n 8),
      length-bits 4 4,
      length-bits n 8,
      length-all_bits bytes,
    ) in
    let stream = padded_bits header total in
    let count : (length stream + 7) / 8 ≡ n + 2 =
      omega (arith, length-padded_bits header total n size fits) in
    let codewords = stream_bytes ((length stream + 7) / 8) stream in
    omega (
      arith,
      fits,
      count,
      length-append codewords (pad_bytes (total - length codewords) 0xec 0x11),
      length-stream_bytes ((length stream + 7) / 8) stream,
      length-pad_bytes (total - length codewords) 0xec 0x11,
    )
