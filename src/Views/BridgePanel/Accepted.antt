-- ===== src/Views/BridgePanel/Accepted.antt =====
-- Which forms of src/components/views/BridgeLivePanel.tsx are submitted.
use resistance_network.Common.{
  ℕ, ◌≤◌, ◌<◌, ◌≡◌, ◌↔◌, refl, true, false, not, ◌&&◌, ◌||◌, ◌==◌, [], ◌∷◌, ◌++◌, Text, length, all,
  trim, none, arith, ltb, lt→ltb, ok, All, trim_start, ap, ◌∙◌, sym,
}
use resistance_network.Common.Int.{pos}
use resistance_network.Common.Trim.{IsBlank, trim_split}
use resistance_network.TxHelpers.BigInt.{bigint_of_text}
use resistance_network.Validation.Accepted.{
  parse_prefix-append, positive_lem, is_digit_head, is_positive-to_double,
}
use resistance_network.Common.Double.{Double, to_double}
use resistance_network.TxHelpers.Hex.{is_hex}
use resistance_network.Validation.{
  is_valid_rstn_address, all_digits, parse_int, parse_prefix, is_positive,
}
use resistance_network.Views.BridgePanel.{
  Mode, lock, burn, Panel, is_empty, is_lock, bad_amount, no_amount, bad_txid, refusal, entered,
}

-- The identifier of a transaction: hexadecimal digits, at least one and at most 128.
abbrev pub IsTxid : Text → Type 0
IsTxid t = (all is_hex t ≡ true) × (0 < length t) × (length t ≤ 128)

not_bad_txid : (t : Text) → (bad_txid t ≡ false) ↔ IsTxid (trim t)
unfolding bad_txid
not_bad_txid t = bounded (trim t)
  where
    bounded :
        (u : Text)
        → ((is_empty u || not (all is_hex u) || length u == 0 || ltb 128 (length u)) ≡ false)
          ↔ IsTxid u
    bounded [] = ((λ h. absurd (cc)), (λ h. absurd (omega (arith, h.1))))
    bounded (c ∷ u) = ((λ h. ground arith), (λ h. ground arith))

-- The number that the form sends of digits, and what `BigInt` reads in them.
parse_int-trim :
    (t w : Text)
    → all_digits t ≡ true
    → All IsBlank w
    → parse_int (t ++ w) ≡ to_double (parse_prefix 0 t)
parse_int-trim [] w h blanks = absurd (cc)
parse_int-trim (c ∷ t) w h blanks =
    rw (is_digit_head c t h) (ap to_double (parse_prefix-append 0 (c ∷ t) w h blanks))

entered_lem :
    (a : Text)
    → all_digits (trim a) ≡ true
    → (parse_int (trim_start a) ≡ to_double (parse_prefix 0 (trim a)))
      × (bigint_of_text a ≡ ok (pos (parse_prefix 0 (trim a))))
entered_lem a h =
    let (w, blanks, e) = trim_split a in
    (
      ap parse_int e ∙ parse_int-trim (trim a) w h blanks,
      (positive_lem a (trim a) w refl e blanks h).0,
    )

IsChecked : Panel → Type 0
IsChecked p =
    (is_empty p.user_address ≡ false)
    × (is_valid_rstn_address p.user_address ≡ true)
    × (bad_amount p.amount ≡ false)
    × (no_amount p.amount ≡ false)
    × ((is_lock p.mode && bad_txid p.source_txid) ≡ false)

refusal-IsChecked : (p : Panel) → refusal p ≡ none → IsChecked p
unfolding refusal IsChecked
refusal-IsChecked p h = ground arith

IsChecked-refusal : (p : Panel) → IsChecked p → refusal p ≡ none
unfolding refusal IsChecked
IsChecked-refusal p h = rw (h.0, h.1, h.2, h.3, h.4) refl

-- The number that is sent is the double of a number above zero, which `BigInt` reads in the text.
abbrev pub IsAmount : Text → Double → Type 0
IsAmount a amount = (n : ℕ) × (bigint_of_text a ≡ ok (pos n)) × (amount ≡ to_double n) × (0 < n)

-- A form that can be submitted.
abbrev pub IsReady : Panel → Type 0
IsReady p =
    (is_valid_rstn_address p.user_address ≡ true)
    × (all_digits (trim p.amount) ≡ true)
    × IsAmount p.amount (entered p)
    × (is_lock p.mode ≡ true → IsTxid (trim p.source_txid))

amount_lem :
    (a : Text)
    → (bad_amount a ≡ false) × (no_amount a ≡ false)
      ↔ (all_digits (trim a) ≡ true) × IsAmount a (parse_int (trim_start a))
unfolding bad_amount no_amount
amount_lem a = (
  λ h.
      let digits : all_digits (trim a) ≡ true = ground arith in
      let (e, b) = entered_lem a digits in
      (digits, (parse_prefix 0 (trim a), b, e, positive (parse_prefix 0 (trim a)) (rw e at h.1))),
  λ h. let (digits, (n, read, same, more)) = h in (rw digits refl, rw same (above n more)),
)
  where
    positive : (n : ℕ) → not (is_positive (to_double n)) ≡ false → 0 < n
    positive n h =
        let same : not (ltb 0 n) ≡ false = ap not (sym (is_positive-to_double n)) ∙ h in
        ground arith

    above : (n : ℕ) → 0 < n → not (is_positive (to_double n)) ≡ false
    above n h = ap not (is_positive-to_double n ∙ lt→ltb 0 n h)

has_address : (a : Text) → is_valid_rstn_address a ≡ true → is_empty a ≡ false
unfolding is_valid_rstn_address trim trim_start
has_address [] h = absurd (cc)
has_address (c ∷ a) h = refl

txid_lem :
    (m : Mode) (t : Text)
    → ((is_lock m && bad_txid t) ≡ false) ↔ (is_lock m ≡ true → IsTxid (trim t))
txid_lem lock t = ((λ h k. (not_bad_txid t).0 h), (λ h. (not_bad_txid t).1 (h refl)))
txid_lem burn t = ((λ h k. absurd (cc)), (λ h. refl))

checked_parts :
    (p : Panel)
    → IsChecked p
    → (is_valid_rstn_address p.user_address ≡ true)
      × ((all_digits (trim p.amount) ≡ true) × IsAmount p.amount (entered p))
      × (is_lock p.mode ≡ true → IsTxid (trim p.source_txid))
unfolding IsChecked
checked_parts p c = (c.1, (amount_lem p.amount).0 (c.2, c.3), (txid_lem p.mode p.source_txid).0 c.4)

of_parts :
    (p : Panel)
    → is_valid_rstn_address p.user_address ≡ true
    → (bad_amount p.amount ≡ false) × (no_amount p.amount ≡ false)
    → (is_lock p.mode && bad_txid p.source_txid) ≡ false
    → IsChecked p
unfolding IsChecked
of_parts p a m t = (has_address p.user_address a, a, m.0, m.1, t)

-- A form is not refused exactly when its address is valid, its amount is all decimal digits, but for
-- white space at its ends, the number that is sent is the double of the one that `BigInt` reads there,
-- which is above zero, and, for a lock, the identifier of the transaction is 1 to 128 hexadecimal digits
-- between white space.
pub refusal_iff : (p : Panel) → (refusal p ≡ none) ↔ IsReady p
refusal_iff p = (
  λ h.
      let c : IsChecked p = refusal-IsChecked p h in
      let (address, amount, id) = checked_parts p c in (address, amount.0, amount.1, id),
  λ h.
      let amount = (amount_lem p.amount).1 (h.1, h.2) in
      IsChecked-refusal p (of_parts p h.0 amount ((txid_lem p.mode p.source_txid).1 h.3)),
)
