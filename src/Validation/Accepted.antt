-- ===== src/Validation/Accepted.antt =====
-- What the checks accept is what the conversions of the transaction encoding read.
use resistance_network.Common.{
  ℕ, zero, suc, ◌+◌, ◌-◌, ◌*◌, ◌^◌, ◌<◌, either_way, ◌≡◌, ◌↔◌, refl, sym, ap, ◌∙◌, true, false, not,
  ◌&&◌, some, List, [], ◌∷◌, ◌++◌, Text, codes, ltb, length, drop, all, All, starts_with, trim,
  trim_start, Result, ok, arith, ltb→lt, lt→ltb, ==_iff, Bool-cases, inl, inr,
}
use mathlib.Core.Bool.{false≢true}
use resistance_network.Common.Int.{ℤ, pos}
use resistance_network.Common.Trim.{IsBlank, trim_split}
use resistance_network.Common.Double.{
  Double, finite, to_double, rounded, round_to, excess_bits, rounded_pos,
}
use resistance_network.TxHelpers.Hex.{IsByte, is_hex, strip_0x, hex_to_bytes, parse_pairs}
use resistance_network.TxHelpers.Hex.Parsing.{
  hex_to_bytes_of_IsHexText, parse_pairs-IsByte, length-parse_pairs, hex_to_bytes-eq-ok, IsHexText,
}
use resistance_network.TxHelpers.BigInt.{read_digits, bigint_of_text}
use resistance_network.TxHelpers.BigInt.Printing.{IsDigit, read_digit, read_bigint_of_digits}
use resistance_network.TxHelpers.Encode.{address_hex, raw_address}
use resistance_network.Validation.{
  HexOptions, is_valid_rstn_address, is_valid_hex, too_short, too_long, is_digit, all_digits,
  parse_prefix, is_positive, is_valid_positive_int,
}

pub strip_0x_of_long : (s : Text) → all is_hex s ≡ true → strip_0x s ≡ s
unfolding strip_0x
strip_0x_of_long [] h = refl
strip_0x_of_long (a ∷ []) h = ground arith
strip_0x_of_long (a ∷ b ∷ s) h = ground arith

address_hex_of_forty : (r : Text) → length r ≡ 40 → address_hex r ≡ r
unfolding address_hex
address_hex_of_forty [] h = absurd (omega arith)
address_hex_of_forty (c ∷ s) h = ground arith

twenty_bytes :
    (r : Text)
    → length r ≡ 40
    → all is_hex r ≡ true
    → (bs : List ℕ) × (hex_to_bytes (address_hex r) ≡ ok bs) × (length bs ≡ 20) × All IsByte bs
twenty_bytes r h k =
    let same : strip_0x r ≡ r = strip_0x_of_long r k in
    (
      parse_pairs r,
      rw (address_hex_of_forty r h) (
          hex_to_bytes_of_IsHexText r (rw same (omega arith, k))
          ∙ ap (λ t. ok (parse_pairs t)) same),
      omega (arith, length-parse_pairs r),
      parse_pairs-IsByte r k,
    )

raw_address_of_prefix : (a : Text) → starts_with (codes "rstn1") a ≡ true → raw_address a ≡ drop 5 a
unfolding raw_address
raw_address_of_prefix a h = rw h

-- An accepted address, without the white space at its ends, is encoded as twenty bytes.
pub is_valid_rstn_address-bytes :
    (addr : Text)
    → is_valid_rstn_address addr ≡ true
    → (bs : List ℕ) × (hex_to_bytes (address_hex (raw_address (trim addr))) ≡ ok bs)
      × (length bs ≡ 20)
      × All IsByte bs
unfolding is_valid_rstn_address
is_valid_rstn_address-bytes addr h =
    rw (raw_address_of_prefix (trim addr) (ground arith))
      (twenty_bytes (drop 5 (trim addr)) (ground arith) (ground arith))

even_length :
    (value : Text)
    → IsHexText (strip_0x value)
    → 2 * length (parse_pairs (strip_0x value)) ≡ length (strip_0x value)
even_length value fits = omega (arith, length-parse_pairs (strip_0x value), fits.0)

is_valid_hex_parts :
    (value : Text) (opts : HexOptions)
    → is_valid_hex value opts ≡ true
    → IsHexText (strip_0x value)
      × (((opts.require_prefix && not (starts_with (codes "0x") value)) ≡ false)
          × (too_short opts.min_length (length (strip_0x value)) ≡ false)
          × (too_long opts.max_length (length (strip_0x value)) ≡ false))
unfolding is_valid_hex
is_valid_hex_parts value opts h = ground arith

is_valid_hex_of_parts :
    (value : Text) (opts : HexOptions)
    → IsHexText (strip_0x value)
    → (opts.require_prefix && not (starts_with (codes "0x") value)) ≡ false
    → too_short opts.min_length (length (strip_0x value)) ≡ false
    → too_long opts.max_length (length (strip_0x value)) ≡ false
    → is_valid_hex value opts ≡ true
unfolding is_valid_hex
is_valid_hex_of_parts value opts fits p q r = rw (p, (==_iff _ _).1 fits.0, fits.1, q, r)

-- The prefix of an accepted hexadecimal text is there if it is required, its length lies within the
-- bounds, and `hexToBytes` reads it; and every such text is accepted.
pub is_valid_hex_iff :
    (value : Text) (opts : HexOptions)
    → (is_valid_hex value opts ≡ true) ↔ (
        (bs : List ℕ) × (hex_to_bytes value ≡ ok bs)
        × ((opts.require_prefix && not (starts_with (codes "0x") value)) ≡ false)
        × (too_short opts.min_length (2 * length bs) ≡ false)
        × (too_long opts.max_length (2 * length bs) ≡ false))
is_valid_hex_iff value opts = (
  λ h.
      let (fits, bounds) = is_valid_hex_parts value opts h in
      let same = even_length value fits in
      (
        parse_pairs (strip_0x value),
        hex_to_bytes_of_IsHexText value fits,
        bounds.0,
        rw same bounds.1,
        rw same bounds.2,
      ),
  λ h.
      let (fits, same) = hex_to_bytes-eq-ok value h.0 h.1 in
      is_valid_hex_of_parts value opts fits h.2
        (rw (ap (λ (t : List ℕ). 2 * length t) (sym same) ∙ even_length value fits) at h.3)
        (rw (ap (λ (t : List ℕ). 2 * length t) (sym same) ∙ even_length value fits) at h.4),
)

digits_of_all : (s : Text) → all is_digit s ≡ true → All IsDigit s
digits_of_all [] h = tt
digits_of_all (c ∷ s) h = (ground arith, digits_of_all s (ground arith))

read_digits-parse_prefix :
    (acc : ℕ) (s : Text) → all is_digit s ≡ true → read_digits 10 acc s ≡ some (parse_prefix acc s)
unfolding parse_prefix
read_digits-parse_prefix acc [] h = unfold read_digits in refl
read_digits-parse_prefix acc (c ∷ s) h =
    let here : is_digit c ≡ true = ground arith in
    ap (λ (k : ℕ). read_digits 10 acc (k ∷ s)) (omega (arith, (digits_of_all (c ∷ s) h).0))
    ∙ read_digit acc (c - b'0') s (omega (arith, (digits_of_all (c ∷ s) h).0))
    ∙ read_digits-parse_prefix (acc * 10 + (c - b'0')) s (ground arith)
    ∙ sym (rw here)

-- White space ends the digits.
pub parse_prefix-append :
    (acc : ℕ) (s w : Text)
    → all is_digit s ≡ true
    → All IsBlank w
    → parse_prefix acc (s ++ w) ≡ parse_prefix acc s
unfolding parse_prefix
parse_prefix-append acc [] [] h k = refl
parse_prefix-append acc [] (c ∷ w) h k = ground arith
parse_prefix-append acc (c ∷ s) w h k =
    let here : is_digit c ≡ true = ground arith in
    rw here (parse_prefix-append (acc * 10 + (c - b'0')) s w (ground arith) k)

pub is_digit_head : (c : ℕ) (s : Text) → all_digits (c ∷ s) ≡ true → is_digit c ≡ true
is_digit_head c s h = ground arith

positive_rounded : (m n : ℕ) → (0 < n → 0 < m) → ltb 0 n ≡ true → is_positive (finite m) ≡ true
positive_rounded m n h k = let here = h (ltb→lt 0 n k) in ground arith

-- No number but zero is rounded to zero.
pub is_positive-to_double : (n : ℕ) → is_positive (to_double n) ≡ ltb 0 n
unfolding to_double
is_positive-to_double zero = unfold round_to excess_bits in refl
is_positive-to_double (suc n) =
    either_way (λ (d : Double). is_positive d ≡ ltb 0 (suc n)) (ltb (rounded (suc n)) (2 ^ 1024)) _
      _
      (λ _.
        positive_rounded (rounded (suc n)) (suc n) (rounded_pos (suc n)) (ground arith)
        ∙ sym (lt→ltb 0 (suc n) (omega arith)))
      λ _. sym (lt→ltb 0 (suc n) (omega arith))

pub positive_lem :
    (value t w : Text)
    → trim value ≡ t
    → trim_start value ≡ t ++ w
    → All IsBlank w
    → all_digits t ≡ true
    → (bigint_of_text value ≡ ok (pos (parse_prefix 0 t)))
      × (is_valid_positive_int value ≡ ltb 0 (parse_prefix 0 t))
unfolding bigint_of_text is_valid_positive_int
positive_lem value [] w e0 e1 blanks h = absurd (false≢true h)
positive_lem value (c ∷ s) w e0 e1 blanks h = (
  rw (
    e0,
    read_bigint_of_digits c s (digits_of_all (c ∷ s) h),
    read_digits-parse_prefix 0 (c ∷ s) h,
  ),
  rw (e0, e1, h, is_digit_head c s h, parse_prefix-append 0 (c ∷ s) w h blanks)
      (is_positive-to_double (parse_prefix 0 (c ∷ s))),
)

all_digits_of_valid :
    (value : Text) → is_valid_positive_int value ≡ true → all_digits (trim value) ≡ true
unfolding is_valid_positive_int
all_digits_of_valid value h = elim (Bool-cases (all_digits (trim value))) [
  | inl good ↦ good
  | inr bad ↦ cc (rw bad at h)
]

pos_value : {r : Result ℤ} {m n : ℕ} → r ≡ ok (pos m) → r ≡ ok (pos n) → n ≡ m
pos_value p q = cc

-- A text is accepted as a positive integer exactly when it is all decimal digits, but for white
-- space at its ends, and `BigInt` reads it as a number above zero.
is_valid_positive_int_iff :
    (value : Text)
    → (is_valid_positive_int value ≡ true)
      ↔ ((n : ℕ) × (0 < n) × (all_digits (trim value) ≡ true) × (bigint_of_text value ≡ ok (pos n)))
is_valid_positive_int_iff value =
    let (w, blanks, e) = trim_split value in
    (
      λ h.
          let digits = all_digits_of_valid value h in
          let (read, same) = positive_lem value (trim value) w refl e blanks digits in
          (parse_prefix 0 (trim value), ltb→lt _ _ (sym same ∙ h), digits, read),
      λ h.
          let (read, same) = positive_lem value (trim value) w refl e blanks h.2 in
          same ∙ lt→ltb 0 _ (rw (pos_value read h.3) at h.1),
    )
