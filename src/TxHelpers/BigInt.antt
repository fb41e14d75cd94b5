-- ===== src/TxHelpers/BigInt.antt =====
-- The built-in `BigInt(x)` of JavaScript, which src/lib/rstn-tx-helpers.ts and src/lib/rstn-sdk.ts
-- apply to texts and to numbers.
pub mod Printing
use resistance_network.Common.{
  ℕ, ◌+◌, ◌-◌, ◌*◌, ◌/◌, ◌%◌, Bool, true, false, ◌&&◌, ◌||◌, List, [], ◌∷◌, Text, codes, ltb, leb,
  ◌==◌, if◌then◌else◌, starts_with, drop, trim, Result, ok, err, not_bigint, not_integer, Option,
  none, some,
}
use resistance_network.Common.Int.{ℤ, pos, negsuc}

-- A JavaScript number: an integer, or one that is no integer (a fraction, NaN, an infinity), of which
-- the model keeps nothing.
pub data Num : Type 0 where
  int : ℤ → Num
  no_int : Num

-- The value of a digit of any radix up to 36; 36 for what is no digit.
abbrev pub digit_value : ℕ → ℕ
digit_value c =
    if leb b'0' c && leb c b'9'
    then c - b'0'
    else if leb b'a' c && leb c b'z'
    then c - 87
    else if leb b'A' c && leb c b'Z'
    then c - 55
    else 36

-- The digits of a text in a radix, most significant first, behind the number read so far.
unfoldable pub read_digits : ℕ → ℕ → Text → Option ℕ
read_digits radix acc [] = some acc
read_digits radix acc (c ∷ s) =
    let rest = read_digits radix (acc * radix + digit_value c) s in
    if ltb (digit_value c) radix then rest else none

-- One digit at least.
abbrev pub read_some_digits : ℕ → Text → Option ℕ
read_some_digits radix [] = none
read_some_digits radix (c ∷ s) = read_digits radix 0 (c ∷ s)

abbrev pub positive : Option ℕ → Result ℤ
positive none = err not_bigint
positive (some n) = ok (pos n)

-- `-0n` is `0n`.
abbrev pub negate : ℕ → ℤ
negate ℕ.zero = pos 0
negate (ℕ.suc n) = negsuc n

abbrev pub negative : Option ℕ → Result ℤ
negative none = err not_bigint
negative (some n) = ok (negate n)

abbrev pub has_prefix : ℕ → ℕ → Text → Bool
has_prefix lo up s = starts_with (b'0' ∷ lo ∷ []) s || starts_with (b'0' ∷ up ∷ []) s

-- StringToBigInt of the language's definition, on a text without the white space at its ends.
unfoldable pub read_bigint : Text → Result ℤ
read_bigint [] = ok (pos 0)
read_bigint (c ∷ s) =
    if has_prefix b'x' b'X' (c ∷ s)
    then positive (read_some_digits 16 (drop 2 (c ∷ s)))
    else if has_prefix b'o' b'O' (c ∷ s)
    then positive (read_some_digits 8 (drop 2 (c ∷ s)))
    else if has_prefix b'b' b'B' (c ∷ s)
    then positive (read_some_digits 2 (drop 2 (c ∷ s)))
    else if c == b'-'
    then negative (read_some_digits 10 s)
    else if c == b'+'
    then positive (read_some_digits 10 s)
    else positive (read_some_digits 10 (c ∷ s))

-- `BigInt(s)` of a string
unfoldable pub bigint_of_text : Text → Result ℤ
bigint_of_text s = read_bigint (trim s)

-- `BigInt(n)` of a number
unfoldable pub bigint_of_num : Num → Result ℤ
bigint_of_num (int v) = ok v
bigint_of_num no_int = err not_integer

-- The decimal digits of `n` in front of `tail`; `n + 1` rounds are enough.
unfoldable pub print_loop : ℕ → ℕ → Text → Text
print_loop ℕ.zero n tail = tail
print_loop (ℕ.suc fuel) n tail =
    let more = print_loop fuel (n / 10) ((n % 10 + b'0') ∷ tail) in
    if ltb n 10 then (n + b'0') ∷ tail else more

-- `v.toString()` of a bigint
unfoldable pub print_bigint : ℤ → Text
print_bigint (pos n) = print_loop (n + 1) n []
print_bigint (negsuc n) = b'-' ∷ print_loop (n + 2) (n + 1) []
