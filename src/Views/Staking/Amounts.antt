-- ===== src/Views/Staking/Amounts.antt =====
-- The amounts that src/components/views/StakingView.tsx reads and sends.
use resistance_network.Common.{
  ℕ, ◌-◌, ◌*◌, ◌^◌, ◌≡◌, refl, sym, ap, ap₂, ◌∙◌, Bool, true, false, not, ◌==◌, [], ◌∷◌, ◌++◌,
  append-nil, Text, length, all, trim_start, is_space, if◌then◌else◌, none, some, arith,
}
use resistance_network.Common.Int.{pos}
use resistance_network.Validation.{is_digit, parse_prefix}
use resistance_network.Json.{Decimal}
use resistance_network.Views.Number.{finite, span_digits, parse_unsigned, parse_float, scaled}
use resistance_network.Views.Staking.{amount_of}

-- What is left behind the digits in front.
abbrev stops : Text → Bool
stops [] = true
stops (c ∷ s) = not (is_digit c)

span_digits-append :
    (ds s : Text) → all is_digit ds ≡ true → stops s ≡ true → span_digits (ds ++ s) ≡ (ds, s)
unfolding span_digits
span_digits-append [] [] h k = refl
span_digits-append [] (c ∷ s) h k = let off : is_digit c ≡ false = ground arith in rw off refl
span_digits-append (c ∷ ds) s h k =
    let here : is_digit c ≡ true = ground arith in
    let rest : all is_digit ds ≡ true = ground arith in
    rw (span_digits-append ds s rest k, here) refl

span_digits-all : (ds : Text) → all is_digit ds ≡ true → span_digits ds ≡ (ds, [])
span_digits-all ds h = ap span_digits (sym (append-nil ds)) ∙ span_digits-append ds [] h refl

abbrev decimal : ℕ → ℕ → Decimal
decimal n places = record { mantissa = pos n; places = places }

scaled_none : (n places : ℕ) → scaled false n places (false, 0) ≡ decimal n places
scaled_none n places =
    let no_shift : 0 - places ≡ 0 = omega arith in
    let whole : n * 10 ^ (0 - places) ≡ n = ap (λ (k : ℕ). n * 10 ^ k) no_shift ∙ one_times n in
    ap₂ decimal whole (omega arith)
  where
    one_times : (m : ℕ) → m * 10 ^ 0 ≡ m
    one_times m = omega arith

parse_unsigned-decimal :
    (c : ℕ) (whole frac : Text)
    → all is_digit (c ∷ whole) ≡ true
    → all is_digit frac ≡ true
    → parse_unsigned false ((c ∷ whole) ++ b'.' ∷ frac)
      ≡ finite (decimal (parse_prefix 0 ((c ∷ whole) ++ frac)) (length frac))
unfolding parse_unsigned
parse_unsigned-decimal c whole frac h k =
    let parts = span_digits-append (c ∷ whole) (b'.' ∷ frac) h refl in
    let no_name : (b'I' == c) ≡ false = ground arith in
    rw (parts, span_digits-all frac k, no_name)
      (ap finite (scaled_none (parse_prefix 0 ((c ∷ whole) ++ frac)) (length frac)))

parse_float_digit :
    (c : ℕ) (s : Text) → is_digit c ≡ true → parse_float (c ∷ s) ≡ parse_unsigned false (c ∷ s)
unfolding parse_float trim_start
parse_float_digit c s h =
    let solid : is_space c ≡ false = ground arith in
    let no_minus : (c == b'-') ≡ false = ground arith in
    let no_plus : (c == b'+') ≡ false = ground arith in rw (solid, no_minus, no_plus) refl

-- Of decimal digits around a point, at least one of them before it, the amount that is sent is the
-- number that they print, with as many places as there are digits behind the point; of zeros alone,
-- nothing is sent.
amount_of_decimal :
    (c : ℕ) (whole frac : Text)
    → all is_digit (c ∷ whole) ≡ true
    → all is_digit frac ≡ true
    → amount_of ((c ∷ whole) ++ b'.' ∷ frac) ≡ (
        if parse_prefix 0 ((c ∷ whole) ++ frac) == 0
        then none
        else some (record {
          mantissa = pos (parse_prefix 0 ((c ∷ whole) ++ frac));
          places = length frac;
        }))
unfolding amount_of
amount_of_decimal c whole frac h k =
    let digit : is_digit c ≡ true = ground arith in
    rw (parse_float_digit c (whole ++ b'.' ∷ frac) digit ∙ parse_unsigned-decimal c whole frac h k)
      refl
