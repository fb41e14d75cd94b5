-- ===== src/Views/Number.antt =====
-- `parseFloat` on what a user typed in, for src/components/views. The numbers are exact decimals: the
-- program rounds them to floats.
use resistance_network.Common.{
  ℕ, zero, suc, ◌+◌, ◌-◌, ◌*◌, ◌^◌, Bool, true, false, ◌&&◌, ◌||◌, [], ◌∷◌, ◌++◌, Text, codes,
  length, starts_with, trim_start, ◌==◌, if◌then◌else◌,
}
use resistance_network.Common.Int.{ℤ, pos, negsuc}
use resistance_network.Validation.{is_digit, parse_prefix}
use resistance_network.Json.{Decimal}

pub data Float : Type 0 where
  nan : Float
  -- by whether it is below zero
  infinite : Bool → Float
  finite : Decimal → Float

-- The digits in front, and what follows them.
unfoldable pub span_digits : Text → Text × Text
span_digits [] = ([], [])
span_digits (c ∷ s) =
    let (ds, rest) = span_digits s in if is_digit c then (c ∷ ds, rest) else ([], c ∷ s)

-- The sign in front: whether it is a minus, and the rest.
abbrev pub sign_of : Text → Bool × Text
sign_of [] = (false, [])
sign_of (c ∷ s) = if c == b'-' then (true, s) else if c == b'+' then (false, s) else (false, c ∷ s)

abbrev pub fraction_of : Text → Text × Text
fraction_of [] = ([], [])
fraction_of (c ∷ s) = if c == b'.' then span_digits s else ([], c ∷ s)

-- The exponent behind an `e`, with its sign; it counts only with a digit.
abbrev pub exponent_digits : Bool × Text → Bool × ℕ
exponent_digits (minus, s) = (minus, parse_prefix 0 s)

abbrev pub exponent_of : Text → Bool × ℕ
exponent_of [] = (false, 0)
exponent_of (c ∷ s) = if c == b'e' || c == b'E' then exponent_digits (sign_of s) else (false, 0)

abbrev pub signed : Bool → ℕ → ℤ
signed false n = pos n
signed true zero = pos 0
signed true (suc n) = negsuc n

-- The digits with a point before the last `places` of them, times a power of ten.
abbrev pub scaled : Bool → ℕ → ℕ → Bool × ℕ → Decimal
scaled minus n places (true, e) = record { mantissa = signed minus n; places = places + e }
scaled minus n places (false, e) = record {
  mantissa = signed minus (n * 10 ^ (e - places));
  places = places - e;
}

abbrev pub is_empty : Text → Bool
is_empty [] = true
is_empty (c ∷ s) = false

unfoldable pub parse_unsigned : Bool → Text → Float
parse_unsigned minus s =
    let (whole, r) = span_digits s in
    let (frac, rest) = fraction_of r in
    if starts_with (codes "Infinity") s
    then infinite minus
    else if is_empty whole && is_empty frac
    then nan
    else finite (scaled minus (parse_prefix 0 (whole ++ frac)) (length frac) (exponent_of rest))

-- `parseFloat(s)`
unfoldable pub parse_float : Text → Float
parse_float s = let (minus, r) = sign_of (trim_start s) in parse_unsigned minus r

abbrev pub at_most_zero : ℤ → Bool
at_most_zero (pos n) = n == 0
at_most_zero (negsuc n) = true

-- `x <= 0`, of which NaN is no case
abbrev pub is_at_most_zero : Float → Bool
is_at_most_zero nan = false
is_at_most_zero (infinite minus) = minus
is_at_most_zero (finite d) = at_most_zero d.mantissa

-- `!x || x <= 0`
abbrev pub is_missing : Float → Bool
is_missing nan = true
is_missing (infinite minus) = minus
is_missing (finite d) = at_most_zero d.mantissa
