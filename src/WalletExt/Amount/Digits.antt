-- ===== src/WalletExt/Amount/Digits.antt =====
-- Texts of digits, read as numbers.
use resistance_network.Common.{
  ℕ, zero, suc, ◌+◌, ◌-◌, ◌*◌, ◌^◌, ◌≤◌, ◌<◌, ◌≡◌, refl, ap, ◌∙◌, true, [], ◌∷◌, ◌++◌, Text, length,
  take, drop, replicate, all, arith,
}
use native.Mathlib.Numerals.{towards_suc}
use resistance_network.Validation.{is_digit, parse_prefix}
use resistance_network.WalletExt.Amount.{digits_value}

ten-pow-suc : (k : ℕ) → 10 ^ suc k ≡ 10 * 10 ^ k
ten-pow-suc k = ap (λ (j : ℕ). 10 ^ j) {x = suc k} {y = k + 1} (omega arith) ∙ ten_step k
  where
    ten_step : (k : ℕ) → 10 ^ (k + 1) ≡ 10 * 10 ^ k
    ten_step k = simp towards_suc (omega arith)

pub mul_mono : (a b p : ℕ) → a ≤ b → a * p ≤ b * p
mul_mono a b p h = grind arith

ten-pow-add : (a b : ℕ) → 10 ^ (a + b) ≡ 10 ^ a * 10 ^ b
ten-pow-add zero b = omega (arith, ap (λ (k : ℕ). 10 ^ k) {x = zero + b} {y = b} (omega arith))
ten-pow-add (suc a) b =
    ap (λ (k : ℕ). 10 ^ k) {x = suc a + b} {y = suc (a + b)} (omega arith)
    ∙ ten-pow-suc (a + b)
    ∙ ap (λ (k : ℕ). 10 * k) (ten-pow-add a b)
    ∙ omega (arith, ap (λ (k : ℕ). k * 10 ^ b) (ten-pow-suc a))

-- Digits behind a number.
parse_prefix-shift :
    (acc : ℕ) (s : Text)
    → all is_digit s ≡ true
    → parse_prefix acc s ≡ acc * 10 ^ length s + digits_value s
unfolding parse_prefix
parse_prefix-shift acc [] h = omega arith
parse_prefix-shift acc (c ∷ s) h =
    let here : is_digit c ≡ true = ground arith in
    let rest : all is_digit s ≡ true = ground arith in
    rw here (
      omega (
        arith,
        parse_prefix-shift (acc * 10 + (c - b'0')) s rest,
        parse_prefix-shift (0 * 10 + (c - b'0')) s rest,
        ap (λ (k : ℕ). acc * k) (ten-pow-suc (length s)),
      ))

pub digits_value-lt : (s : Text) → all is_digit s ≡ true → digits_value s < 10 ^ length s
unfolding parse_prefix
digits_value-lt [] h = omega arith
digits_value-lt (c ∷ s) h =
    let here : is_digit c ≡ true = ground arith in
    let rest : all is_digit s ≡ true = ground arith in
    let small : c - b'0' ≤ 9 = ground arith in
    rw here (
      omega (
        arith,
        parse_prefix-shift (0 * 10 + (c - b'0')) s rest,
        digits_value-lt s rest,
        mul_mono (c - b'0') 9 (10 ^ length s) small,
        ten-pow-suc (length s),
      ))

pub parse_prefix-append :
    (acc : ℕ) (s t : Text)
    → all is_digit s ≡ true
    → parse_prefix acc (s ++ t) ≡ parse_prefix (parse_prefix acc s) t
unfolding parse_prefix
parse_prefix-append acc [] t h = refl
parse_prefix-append acc (c ∷ s) t h =
    let here : is_digit c ≡ true = ground arith in
    rw here (parse_prefix-append (acc * 10 + (c - b'0')) s t (ground arith))

pub digits_value-append :
    (s t : Text)
    → all is_digit s ≡ true
    → all is_digit t ≡ true
    → digits_value (s ++ t) ≡ digits_value s * 10 ^ length t + digits_value t
digits_value-append s t h k = parse_prefix-append 0 s t h ∙ parse_prefix-shift (digits_value s) t k

pub zeros_digits :
    (n : ℕ) → (all is_digit (replicate n b'0') ≡ true) × (digits_value (replicate n b'0') ≡ 0)
unfolding parse_prefix
zeros_digits zero = (refl, refl)
zeros_digits (suc n) = zeros_digits n

pub all-take : (n : ℕ) (s : Text) → all is_digit s ≡ true → all is_digit (take n s) ≡ true
all-take zero s h = refl
all-take (suc n) [] h = refl
all-take (suc n) (c ∷ s) h = ground (arith, all-take n s (ground arith))

pub all-drop : (n : ℕ) (s : Text) → all is_digit s ≡ true → all is_digit (drop n s) ≡ true
all-drop zero s h = h
all-drop (suc n) [] h = refl
all-drop (suc n) (c ∷ s) h = all-drop n s (ground arith)

pub take-drop : (n : ℕ) (s : Text) → take n s ++ drop n s ≡ s
take-drop zero s = refl
take-drop (suc n) [] = refl
take-drop (suc n) (c ∷ s) = ap (λ t. c ∷ t) (take-drop n s)
