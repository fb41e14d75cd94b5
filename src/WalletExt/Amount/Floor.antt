-- ===== src/WalletExt/Amount/Floor.antt =====
-- The amount that is read, against the number that the text stands for.
use resistance_network.Common.{
  ℕ, ◌+◌, ◌*◌, ◌^◌, ◌≤◌, ◌<◌, ◌≡◌, refl, sym, ap, ◌∙◌, Bool, true, false, not, ◌&&◌, [], ◌∷◌, ◌++◌,
  Text, codes, length, drop, replicate, all, trim, ◌==◌, if◌then◌else◌, Option, none, some, Result,
  ok, err, thrown, arith, Bool-cases, inl, inr, length-append, all-append, length-drop, leb, ==_iff,
  ◌↔◌, subst,
}
use resistance_network.Validation.{is_digit, all_digits}
use resistance_network.WalletExt.Amount.{
  digits_value, prepend, split_point, is_amount, frac_of, frac_padded, parse_amount_wei,
}
use resistance_network.WalletExt.Amount.Digits.{
  mul_mono, digits_value-lt, digits_value-append, zeros_digits, all-take, all-drop, take-drop,
}

-- The eighteen digits that are read are the fraction, scaled, rounded down.
frac_floor :
    (f : Text)
    → all is_digit f ≡ true
    → (r : ℕ) × (digits_value f * 10 ^ 18 ≡ digits_value (frac_padded f) * 10 ^ length f + r)
      × (r < 10 ^ length f)
frac_floor f h =
    let zs = replicate 18 b'0' in
    let whole = all-append is_digit f zs h (zeros_digits 18).0 in
    let rest = drop 18 (f ++ zs) in
    let rest_digits = all-drop 18 (f ++ zs) whole in
    let size : length rest ≡ length f =
      omega (arith, length-drop 18 (f ++ zs), length-append f zs) in
    let sum = digits_value-append (frac_padded f) rest (all-take 18 (f ++ zs) whole) rest_digits in
    (
      digits_value rest,
      omega (arith, digits_value-append f zs h (zeros_digits 18).0, (zeros_digits 18).1)
          ∙ ap digits_value (sym (take-drop 18 (f ++ zs)))
          ∙ sum
          ∙ ap (λ (k : ℕ). digits_value (frac_padded f) * 10 ^ k + digits_value rest) size,
      rw (← size) (digits_value-lt rest rest_digits),
    )

-- A whole part with its fraction, if there is one.
abbrev pub joined : Text → Text → Text
joined w [] = w
joined w (c ∷ f) = w ++ b'.' ∷ c ∷ f

-- The number of wei is the amount, scaled by 10 ^ 18 and rounded down.
pub record IsFloor (w f : Text) (n : ℕ) : Type 0 where
  pub low : n * 10 ^ length f ≤ digits_value (w ++ f) * 10 ^ 18
  pub high : digits_value (w ++ f) * 10 ^ 18 < (n + 1) * 10 ^ length f

wei-IsFloor :
    (w f : Text)
    → all is_digit w ≡ true
    → all is_digit f ≡ true
    → IsFloor w f (digits_value w * 10 ^ 18 + digits_value (frac_padded f))
wei-IsFloor w f h k =
    let (r, scaled, small) = frac_floor f k in
    let sum = digits_value-append w f h k in
    record { low = omega (arith, scaled, sum); high = omega (arith, scaled, sum, small) }

floor_le : (w f : Text) (n m : ℕ) → IsFloor w f n → IsFloor w f m → n ≤ m
floor_le w f n m a b = elim (Bool-cases (leb n m)) [
  | inl h ↦ ground arith
  | inr h ↦ absurd (omega (arith, a.low, b.high, mul_mono (m + 1) n (10 ^ length f) (ground arith)))
]

floor_unique : (w f : Text) (n m : ℕ) → IsFloor w f n → IsFloor w f m → n ≡ m
floor_unique w f n m a b = omega (arith, floor_le w f n m a b, floor_le w f m n b a)

split_digits : (w : Text) → all is_digit w ≡ true → split_point w ≡ (w, none)
unfolding split_point
split_digits [] h = refl
split_digits (c ∷ w) h =
    let here : (c == b'.') ≡ false = ground arith in rw (here, split_digits w (ground arith))

split_point-point : (w f : Text) → all is_digit w ≡ true → split_point (w ++ b'.' ∷ f) ≡ (w, some f)
unfolding split_point
split_point-point [] f h = refl
split_point-point (c ∷ w) f h =
    let here : (c == b'.') ≡ false = ground arith in rw (here, split_point-point w f (ground arith))

abbrev Split : Text → Text × Option Text → Type 0
Split s (w, none) = s ≡ w
Split s (w, some f) = s ≡ w ++ b'.' ∷ f

prepend-Split :
    (c : ℕ) (s : Text) (p : Text × Option Text) → Split s p → Split (c ∷ s) (prepend c p)
prepend-Split c s (w, none) h = ap (λ t. c ∷ t) h
prepend-Split c s (w, some f) h = ap (λ t. c ∷ t) h

split_point-Split : (s : Text) → Split s (split_point s)
unfolding split_point
split_point-Split [] = refl
split_point-Split (c ∷ s) = elim (Bool-cases (c == b'.')) [
  | inl point ↦ rw point (ap (λ k. k ∷ s) ((==_iff c b'.').0 point))
  | inr other ↦ rw other (prepend-Split c s _ (split_point-Split s))
]

-- A text spells an amount, and this is its number of wei.
abbrev pub Spells : Text → ℕ → Type 0
Spells s n =
    (w : Text) × (f : Text) × (all_digits w ≡ true)
    × (all is_digit f ≡ true)
    × (s ≡ joined w f)
    × IsFloor w f n

-- The amount of the two parts.
abbrev amount_of : Text × Option Text → Result ℕ
amount_of parts =
    if not (is_amount parts)
    then err (thrown (codes "Invalid amount format"))
    else ok (digits_value parts.0 * 10 ^ 18 + digits_value (frac_padded (frac_of parts.1)))

all_digits-all : (w : Text) → all_digits w ≡ true → all is_digit w ≡ true
all_digits-all [] h = refl
all_digits-all (c ∷ w) h = h

-- What a guard lets through.
guarded :
    (b : Bool) (m n : ℕ)
    → (if not b then err (thrown (codes "Invalid amount format")) else ok m) ≡ ok n
    → (b ≡ true) × (m ≡ n)
guarded true m n e = (refl, cc)
guarded false m n e = cc

amount-Spells :
    (s : Text) (p : Text × Option Text) (n : ℕ) → Split s p → amount_of p ≡ ok n → Spells s n
amount-Spells s (w, none) n h e =
    let (ds, value) = guarded (all_digits w) _ n e in
    (w, [], ds, refl, h, subst (IsFloor w []) value (wei-IsFloor w [] (all_digits-all w ds) refl))
amount-Spells s (w, some []) n h e = absurd (ground arith)
amount-Spells s (w, some (c ∷ f)) n h e =
    let (both, value) = guarded (all_digits w && all is_digit (c ∷ f)) _ n e in
    let ds : all_digits w ≡ true = ground arith in
    let fs : all is_digit (c ∷ f) ≡ true = ground arith in
    (
      w,
      c ∷ f,
      ds,
      fs,
      h,
      subst (IsFloor w (c ∷ f)) value (wei-IsFloor w (c ∷ f) (all_digits-all w ds) fs),
    )

joined_parts : Text → Text → Text × Option Text
joined_parts w [] = (w, none)
joined_parts w (c ∷ f) = (w, some (c ∷ f))

split_point-joined :
    (w f : Text) → all is_digit w ≡ true → split_point (joined w f) ≡ joined_parts w f
unfolding joined_parts
split_point-joined w [] h = split_digits w h
split_point-joined w (c ∷ f) h = split_point-point w (c ∷ f) h

amount-joined :
    (w f : Text) (n : ℕ)
    → all_digits w ≡ true
    → all is_digit f ≡ true
    → IsFloor w f n
    → amount_of (joined_parts w f) ≡ ok n
unfolding joined_parts
amount-joined w [] n h k floor =
    rw h (ap ok (floor_unique w [] _ n (wei-IsFloor w [] (all_digits-all w h) k) floor))
amount-joined w (c ∷ f) n h k floor =
    rw (h, k)
      (ap ok (floor_unique w (c ∷ f) _ n (wei-IsFloor w (c ∷ f) (all_digits-all w h) k) floor))

-- An amount is read as n exactly if, without the white space around it, it is a whole number in
-- decimal digits, or one with a point and a fraction behind it, and n is this number times 10 ^ 18,
-- rounded down; any other text is refused.
pub parse_amount_wei_iff :
    (amount : Text) (n : ℕ) → (parse_amount_wei amount ≡ ok n) ↔ Spells (trim amount) n
unfolding parse_amount_wei
parse_amount_wei_iff amount n = (
  λ e. amount-Spells (trim amount) _ n (split_point-Split (trim amount)) e,
  λ (w, f, ds, fs, at, floor).
      ap amount_of (ap split_point at ∙ split_point-joined w f (all_digits-all w ds))
      ∙ amount-joined w f n ds fs floor,
)
