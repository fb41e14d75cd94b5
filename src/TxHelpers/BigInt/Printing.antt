-- ===== src/TxHelpers/BigInt/Printing.antt =====
-- `BigInt` reads back what `toString` printed.
use resistance_network.Common.{
  ℕ, zero, suc, ◌+◌, ◌*◌, ◌/◌, ◌%◌, ◌<◌, ◌≤◌, ◌≡◌, refl, [], ◌∷◌, Text, ltb, All, ok, some, arith,
  ap, ◌∙◌, Bool-cases, inl, inr,
}
use resistance_network.Common.Int.{ℤ, pos, negsuc}
use resistance_network.TxHelpers.BigInt.{
  digit_value, read_digits, read_bigint, bigint_of_text, print_loop, print_bigint, positive,
}
use resistance_network.Common.Trim.{IsSolid, trim_of_solid}

abbrev pub IsDigit : ℕ → Type 0
IsDigit c = (b'0' ≤ c) × (c ≤ b'9')

IsSolid-of_digits : (s : Text) → All IsDigit s → All IsSolid s
IsSolid-of_digits [] h = tt
IsSolid-of_digits (c ∷ s) (h, k) = (ground arith, IsSolid-of_digits s k)

print_loop-IsDigit :
    (fuel n : ℕ) (tail : Text) → All IsDigit tail → All IsDigit (print_loop fuel n tail)
unfolding print_loop
print_loop-IsDigit zero n tail h = h
print_loop-IsDigit (suc fuel) n tail h =
    ground (arith, print_loop-IsDigit fuel (n / 10) ((n % 10 + b'0') ∷ tail))

-- One digit read.
pub read_digit :
    (a d : ℕ) (s : Text)
    → d < 10
    → read_digits 10 a ((d + b'0') ∷ s) ≡ read_digits 10 (a * 10 + d) s
unfolding read_digits
read_digit a d s h = ground (arith, value)
  where
    value : digit_value (d + b'0') ≡ d
    value = ground arith

-- With fuel beyond the number, the digits read as that number.
read_digits-print_loop :
    (fuel n : ℕ) (tail : Text)
    → n < fuel
    → read_digits 10 0 (print_loop fuel n tail) ≡ read_digits 10 n tail
unfolding print_loop
read_digits-print_loop zero n tail h = absurd (omega arith)
read_digits-print_loop (suc fuel) n tail h = elim (Bool-cases (ltb n 10)) [
  | inl last ↦
      rw last
        (read_digit 0 n tail (ground arith) ∙ ap (λ (t : ℕ). read_digits 10 t tail) (omega arith))
  | inr more ↦ rw more (
      read_digits-print_loop fuel (n / 10) ((n % 10 + b'0') ∷ tail) (ground arith)
      ∙ read_digit (n / 10) (n % 10) tail (omega arith)
      ∙ ap (λ (t : ℕ). read_digits 10 t tail) (omega arith))
]

print_loop-cons :
    (fuel n : ℕ) (tail : Text) → n < fuel → (c : ℕ) × (s : Text) × (print_loop fuel n tail ≡ c ∷ s)
unfolding print_loop
print_loop-cons zero n tail h = absurd (omega arith)
print_loop-cons (suc fuel) n tail h = elim (Bool-cases (ltb n 10)) [
  | inl last ↦ (n + b'0', tail, rw last)
  | inr more ↦
      let (c, s, e) = print_loop-cons fuel (n / 10) ((n % 10 + b'0') ∷ tail) (ground arith) in
      (c, s, rw more e)
]

pub read_bigint_of_digits :
    (c : ℕ) (s : Text)
    → All IsDigit (c ∷ s)
    → read_bigint (c ∷ s) ≡ positive (read_digits 10 0 (c ∷ s))
unfolding read_bigint
read_bigint_of_digits c [] h = ground arith
read_bigint_of_digits c (d ∷ s) h = ground arith

-- One digit at least, all of them digits, which read as the number.
print_loop_shape :
    (n : ℕ)
    → (c : ℕ) × (s : Text) × (print_loop (n + 1) n [] ≡ c ∷ s)
      × All IsDigit (c ∷ s)
      × (read_digits 10 0 (c ∷ s) ≡ some n)
print_loop_shape n =
    let (c, s, e) = print_loop-cons (n + 1) n [] (omega arith) in
    (
      c,
      s,
      e,
      rw e at (print_loop-IsDigit (n + 1) n [] tt),
      (rw e at (read_digits-print_loop (n + 1) n [] (omega arith))) ∙ unfold read_digits in refl,
    )

print_pos : (n : ℕ) → bigint_of_text (print_loop (n + 1) n []) ≡ ok (pos n)
unfolding bigint_of_text
print_pos n =
    let (c, s, e, digits, value) = print_loop_shape n in
    rw (
      e,
      trim_of_solid (c ∷ s) (IsSolid-of_digits (c ∷ s) digits),
      read_bigint_of_digits c s digits,
      value,
    )

print_neg : (n : ℕ) → bigint_of_text (b'-' ∷ print_loop (suc n + 1) (suc n) []) ≡ ok (negsuc n)
unfolding bigint_of_text
print_neg n =
    let (c, s, e, digits, value) = print_loop_shape (suc n) in
    rw (e, trim_of_solid (b'-' ∷ c ∷ s) (refl, IsSolid-of_digits (c ∷ s) digits))
      (unfold read_bigint in rw value)

-- The text that `toString` gives for a bigint reads back, by `BigInt`, as that bigint.
pub bigint_of_text-print_bigint : (v : ℤ) → bigint_of_text (print_bigint v) ≡ ok v
unfolding print_bigint
bigint_of_text-print_bigint (pos n) = print_pos n
bigint_of_text-print_bigint (negsuc n) =
    ap (λ (t : ℕ). bigint_of_text (b'-' ∷ print_loop (n + 2) t [])) (omega arith)
    ∙ ap (λ (t : ℕ). bigint_of_text (b'-' ∷ print_loop t (suc n) [])) (omega arith)
    ∙ print_neg n
