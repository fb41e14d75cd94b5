-- ===== src/Validation.antt =====
-- src/lib/validation.ts: the checks of what a user typed in.
pub mod Accepted
pub mod Derived
use resistance_network.Common.{
  ℕ, ◌+◌, ◌-◌, ◌*◌, ◌%◌, Bool, true, false, not, ◌&&◌, ◌||◌, Option, none, some, List, [], ◌∷◌,
  Text, codes, ltb, leb, ◌==◌, if◌then◌else◌, length, drop, all, starts_with, trim, trim_start,
}
use resistance_network.Common.Double.{Double, nan, finite, infinite, to_double}
use resistance_network.TxHelpers.Hex.{is_hex, strip_0x}

-- `/^rstn1[0-9a-fA-F]{40}$/.test(addr.trim())`
unfoldable pub is_valid_rstn_address : Text → Bool
is_valid_rstn_address addr =
    let a = trim addr in
    starts_with (codes "rstn1") a && (length (drop 5 a) == 40 && all is_hex (drop 5 a))

pub record HexOptions : Type 0 where
  pub require_prefix : Bool
  pub min_length : Option ℕ
  pub max_length : Option ℕ

-- `opts.minLength !== undefined && clean.length < opts.minLength`
abbrev pub too_short : Option ℕ → ℕ → Bool
too_short none n = false
too_short (some least) n = ltb n least

abbrev pub too_long : Option ℕ → ℕ → Bool
too_long none n = false
too_long (some most) n = ltb most n

unfoldable pub is_valid_hex : Text → HexOptions → Bool
is_valid_hex value opts =
    let clean = strip_0x value in
    if opts.require_prefix && not (starts_with (codes "0x") value)
    then false
    else if not (length clean % 2 == 0)
    then false
    else if not (all is_hex clean)
    then false
    else if too_short opts.min_length (length clean)
    then false
    else not (too_long opts.max_length (length clean))

-- The class `\d`.
abbrev pub is_digit : ℕ → Bool
is_digit c = leb b'0' c && leb c b'9'

-- `/^\d+$/.test(s)`
abbrev pub all_digits : Text → Bool
all_digits [] = false
all_digits (c ∷ s) = all is_digit (c ∷ s)

-- The digits in front, most significant first, behind the number read so far.
unfoldable pub parse_prefix : ℕ → Text → ℕ
parse_prefix acc [] = acc
parse_prefix acc (c ∷ s) =
    let rest = parse_prefix (acc * 10 + (c - b'0')) s in if is_digit c then rest else acc

-- `parseInt(value, 10)` where it reads no sign. Past twenty digits an engine may approximate; this one
-- reads them all.
abbrev pub parse_int : Text → Double
parse_int [] = nan
parse_int (c ∷ s) = if is_digit c then to_double (parse_prefix 0 (c ∷ s)) else nan

-- `!!n && n > 0`
abbrev pub is_positive : Double → Bool
is_positive nan = false
is_positive (finite n) = not (n == 0) && ltb 0 n
is_positive infinite = true

unfoldable pub is_valid_positive_int : Text → Bool
is_valid_positive_int value =
    if not (all_digits (trim value)) then false else is_positive (parse_int (trim_start value))
