-- ===== src/WalletExt/Amount.antt =====
-- rstn-wallet/background.js: `parseAmountWei`. `BigInt` on decimal digits is `digits_value`.
pub mod Digits
pub mod Floor
use resistance_network.Common.{
  ℕ, ◌+◌, ◌*◌, ◌^◌, Bool, true, false, not, ◌&&◌, List, [], ◌∷◌, ◌++◌, Text, codes, take, replicate,
  trim, ◌==◌, if◌then◌else◌, Option, none, some, Result, ok, err, thrown,
}
use resistance_network.Validation.{all_digits, parse_prefix}

abbrev pub digits_value : Text → ℕ
digits_value s = parse_prefix 0 s

abbrev pub prepend : ℕ → Text × Option Text → Text × Option Text
prepend c (w, f) = (c ∷ w, f)

-- What stands before the first point, and behind it.
unfoldable pub split_point : Text → Text × Option Text
split_point [] = ([], none)
split_point (c ∷ s) = let rest = split_point s in if c == b'.' then ([], some s) else prepend c rest

-- `/^\d+(\.\d+)?$/.test(s)`
abbrev pub is_amount : Text × Option Text → Bool
is_amount (w, none) = all_digits w
is_amount (w, some f) = all_digits w && all_digits f

abbrev pub frac_of : Option Text → Text
frac_of none = []
frac_of (some f) = f

-- `(frac + "000000000000000000").slice(0, 18)`
abbrev pub frac_padded : Text → Text
frac_padded frac = take 18 (frac ++ replicate 18 b'0')

unfoldable pub parse_amount_wei : Text → Result ℕ
parse_amount_wei amount =
    let parts = split_point (trim amount) in
    if not (is_amount parts)
    then err (thrown (codes "Invalid amount format"))
    else ok (digits_value parts.0 * 10 ^ 18 + digits_value (frac_padded (frac_of parts.1)))
