-- ===== src/Common/Double.antt =====
-- The numbers of JavaScript where they come from decimal digits: from 2^53 on they are rounded to 53
-- significant bits, to the even neighbour of a tie, and beyond the largest of them they are Infinity.
use native.Mathlib.Nat.{mod-lt, pow-succ'}
use resistance_network.Common.Tests.{ltb, lt→ltb, ◌==◌, if◌then◌else◌, either_way}
use Prim.Native.Nat.{ℕ, zero, suc, ◌+◌, ◌-◌, ◌*◌, ◌/◌, ◌%◌, ◌^◌, ◌≤◌, ◌<◌}
use mathlib.Core.Path.{◌≡◌, refl, ap, ◌∙◌}
use mathlib.Core.Bool.{◌&&◌, ◌||◌}
use native.Mathlib.Omega.{arith}

pub data Double : Type 0 where
  nan : Double
  finite : ℕ → Double
  infinite : Double

-- How often a number is halved before it has at most 53 bits.
unfoldable pub excess_bits : (fuel : ℕ) → ℕ → ℕ
excess_bits zero n = 0
excess_bits (suc fuel) n =
    let rest = excess_bits fuel (n / 2) in if ltb n (2 ^ 53) then 0 else 1 + rest

-- To a multiple of the first number: the nearer one, and from the middle the even one.
unfoldable pub round_to : ℕ → ℕ → ℕ
round_to unit n =
    let lower = n - n % unit in
    if ltb (2 * (n % unit)) unit || (2 * (n % unit) == unit && (n / unit) % 2 == 0)
    then lower
    else lower + unit

abbrev pub rounded : ℕ → ℕ
rounded n = round_to (2 ^ excess_bits n n) n

unfoldable pub to_double : ℕ → Double
to_double n = if ltb (rounded n) (2 ^ 1024) then finite (rounded n) else infinite

doubled : (k : ℕ) → 2 ^ (1 + k) ≡ 2 ^ k + 2 ^ k
doubled k =
    let next : 1 + k ≡ suc k = omega arith in
    ap (λ (j : ℕ). 2 ^ j) next ∙ pow-succ' 2 k ∙ omega arith

excess_bits_le : (fuel n : ℕ) → 0 < n → (0 < 2 ^ excess_bits fuel n) × (2 ^ excess_bits fuel n ≤ n)
unfolding excess_bits
excess_bits_le zero n h = (omega arith, omega arith)
excess_bits_le (suc fuel) n h =
    either_way (λ (k : ℕ). (0 < 2 ^ k) × (2 ^ k ≤ n)) (ltb n (2 ^ 53)) _ _
      (λ _. (omega arith, omega arith))
      λ big.
        let half = excess_bits_le fuel (n / 2) (ground arith) in
        let twice = doubled (excess_bits fuel (n / 2)) in
        (omega (arith, half.0, twice), omega (arith, half.1, twice))

round_to_pos : (unit n : ℕ) → 0 < unit → unit ≤ n → 0 < round_to unit n
unfolding round_to
round_to_pos unit n h k = ground (arith, mod-lt n h)

-- No number but zero is rounded to zero.
pub rounded_pos : (n : ℕ) → 0 < n → 0 < rounded n
rounded_pos n h =
    let unit = excess_bits_le n n h in round_to_pos (2 ^ excess_bits n n) n unit.0 unit.1

excess_bits_small : (fuel n : ℕ) → n < 2 ^ 53 → excess_bits fuel n ≡ 0
unfolding excess_bits
excess_bits_small zero n h = refl
excess_bits_small (suc fuel) n h = rw (lt→ltb n (2 ^ 53) h) refl

round_to_one : (n : ℕ) → round_to 1 n ≡ n
unfolding round_to
round_to_one n = ground arith

rounded_small : (n : ℕ) → n < 2 ^ 53 → rounded n ≡ n
rounded_small n h = ap (λ (k : ℕ). round_to (2 ^ k) n) (excess_bits_small n n h) ∙ round_to_one n

-- A number below 2^53 is itself.
pub to_double_small : (n : ℕ) → n < 2 ^ 53 → to_double n ≡ finite n
unfolding to_double
to_double_small n h = rw (rounded_small n h, lt→ltb n (2 ^ 1024) (omega (arith, h))) refl
