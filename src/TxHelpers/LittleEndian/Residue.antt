-- ===== src/TxHelpers/LittleEndian/Residue.antt =====
-- The number that the bytes stand for.
use resistance_network.Common.{
  ℕ, zero, suc, ◌+◌, ◌-◌, ◌*◌, ◌/◌, ◌%◌, ◌^◌, ◌<◌, ◌≡◌, refl, List, [], ◌∷◌, length, All, arith, ap,
  ◌∙◌,
}
use resistance_network.Common.Int.{ℤ, pos, negsuc}
use resistance_network.TxHelpers.Hex.{IsByte}
use resistance_network.TxHelpers.LittleEndian.{
  shift_byte, le_bytes, u128_to_le_bytes, u64_to_le_bytes,
}
use native.Mathlib.Nat.{pow-succ', div-add-mod, mod-lt, mod-eq_of_lt, mul-add-mod_self_left}

-- The number with these little-endian bytes.
unfoldable pub of_le_bytes : List ℕ → ℕ
of_le_bytes [] = 0
of_le_bytes (b ∷ bs) = b + 256 * of_le_bytes bs

-- The residue of an integer modulo 256 ^ k.
abbrev pub residue : ℕ → ℤ → ℕ
residue k (pos n) = n % 256 ^ k
residue k (negsuc n) = 256 ^ k - 1 - n % 256 ^ k

pow_step : (k : ℕ) → 256 ^ suc k ≡ 256 * 256 ^ k
pow_step k = pow-succ' 256 k

pow_pos : (k : ℕ) → 0 < 256 ^ k
pow_pos zero = omega arith
pow_pos (suc k) = omega (arith, pow_step k, pow_pos k)

mod_unique : (d q r : ℕ) → r < d → (d * q + r) % d ≡ r
mod_unique d q r h = mul-add-mod_self_left d q r ∙ mod-eq_of_lt h

-- One more byte: the lowest one, and the residue of the rest.
mod_step : (n m : ℕ) → 0 < m → n % (256 * m) ≡ n % 256 + 256 * (n / 256 % m)
mod_step n m h = ap (λ (t : ℕ). t % (256 * m)) regroup ∙ mod_unique (256 * m) (n / 256 / m) _ fits
  where
    regroup : n ≡ 256 * m * (n / 256 / m) + (n % 256 + 256 * (n / 256 % m))
    regroup = omega (arith, div-add-mod n 256, ap (λ (t : ℕ). 256 * t) (div-add-mod (n / 256) m))

    fits : n % 256 + 256 * (n / 256 % m) < 256 * m
    fits = omega (arith, mod-lt (n / 256) h)

le_bytes-IsByte : (k : ℕ) (v : ℤ) → All IsByte (le_bytes k v)
unfolding le_bytes
le_bytes-IsByte zero v = tt
le_bytes-IsByte (suc k) (pos n) = (omega arith, le_bytes-IsByte k (pos (n / 256)))
le_bytes-IsByte (suc k) (negsuc n) = (omega arith, le_bytes-IsByte k (negsuc (n / 256)))

length-le_bytes : (k : ℕ) (v : ℤ) → length (le_bytes k v) ≡ k
unfolding le_bytes
length-le_bytes zero v = refl
length-le_bytes (suc k) v = ap suc (length-le_bytes k (shift_byte v))

of_le_bytes-le_bytes : (k : ℕ) (v : ℤ) → of_le_bytes (le_bytes k v) ≡ residue k v
unfolding le_bytes of_le_bytes
of_le_bytes-le_bytes zero (pos n) = omega arith
of_le_bytes-le_bytes zero (negsuc n) = omega arith
of_le_bytes-le_bytes (suc k) (pos n) = omega (
  arith,
  of_le_bytes-le_bytes k (pos (n / 256)),
  ap (λ (t : ℕ). n % t) (pow_step k),
  mod_step n (256 ^ k) (pow_pos k),
)
of_le_bytes-le_bytes (suc k) (negsuc n) = omega (
  arith,
  of_le_bytes-le_bytes k (negsuc (n / 256)),
  pow_step k,
  mod-lt (n / 256) (pow_pos k),
  ap (λ (t : ℕ). n % t) (pow_step k),
  mod_step n (256 ^ k) (pow_pos k),
)

-- The sixteen bytes of `u128ToLeBytes` stand for the integer modulo 2^128, whatever its size and
-- sign, and the eight of `u64ToLeBytes` for the integer modulo 2^64.
pub le_bytes_residue :
    (v : ℤ)
    → (length (u128_to_le_bytes v) ≡ 16)
      × All IsByte (u128_to_le_bytes v)
      × (of_le_bytes (u128_to_le_bytes v) ≡ residue 16 v)
      × (length (u64_to_le_bytes v) ≡ 8)
      × All IsByte (u64_to_le_bytes v)
      × (of_le_bytes (u64_to_le_bytes v) ≡ residue 8 v)
unfolding u128_to_le_bytes u64_to_le_bytes
le_bytes_residue v = (
  length-le_bytes 16 v,
  le_bytes-IsByte 16 v,
  of_le_bytes-le_bytes 16 v,
  length-le_bytes 8 v,
  le_bytes-IsByte 8 v,
  of_le_bytes-le_bytes 8 v,
)

-- Two integers from 0 up to, but not including, 2^128 with the same sixteen bytes are equal.
pub u128_to_le_bytes-injective :
    (a b : ℕ)
    → a < 2 ^ 128
    → b < 2 ^ 128
    → u128_to_le_bytes (pos a) ≡ u128_to_le_bytes (pos b)
    → a ≡ b
unfolding u128_to_le_bytes
u128_to_le_bytes-injective a b ha hb e =
    omega
      (arith, ap of_le_bytes e, of_le_bytes-le_bytes 16 (pos a), of_le_bytes-le_bytes 16 (pos b))

-- Likewise below 2^64, with eight bytes.
pub u64_to_le_bytes-injective :
    (a b : ℕ) → a < 2 ^ 64 → b < 2 ^ 64 → u64_to_le_bytes (pos a) ≡ u64_to_le_bytes (pos b) → a ≡ b
unfolding u64_to_le_bytes
u64_to_le_bytes-injective a b ha hb e =
    omega (arith, ap of_le_bytes e, of_le_bytes-le_bytes 8 (pos a), of_le_bytes-le_bytes 8 (pos b))
