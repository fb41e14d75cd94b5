-- ===== src/WalletExt/Bytes/Recipient.antt =====
-- The recipient that the extension puts into a transaction.
use resistance_network.Common.{
  ℕ, zero, suc, ◌*◌, ◌+◌, ◌%◌, ◌<◌, ◌≡◌, ◌↔◌, refl, sym, ap, ap₂, ◌∙◌, true, List, [], ◌∷◌, ◌++◌,
  map, Text, codes, take, trim_start, length, replicate, all, none, some, arith, ok, ok-injective,
}
use resistance_network.Common.Int.{pos}
use resistance_network.TxHelpers.Hex
use resistance_network.TxHelpers.Encode.{raw_address}
use resistance_network.TxHelpers.Hex.{is_hex, hex_value, parse_pairs, strip_0x, to_hex}
use resistance_network.TxHelpers.Hex.Parsing.{
  lower, IsHexText, to_hex-parse_pairs, length-parse_pairs, hex_to_bytes_of_IsHexText,
}
use resistance_network.TxHelpers.BigInt.{digit_value}
use resistance_network.WalletExt.Bytes.{
  hex_prefix, parse_int_16, to_byte, loose_pairs, hex_to_bytes, address_to_bytes,
}

digit_value-hex : (c : ℕ) → is_hex c ≡ true → (digit_value c ≡ hex_value c) × (hex_value c < 16)
digit_value-hex c h = ground arith

trim_hex : (c : ℕ) (s : Text) → is_hex c ≡ true → trim_start (c ∷ s) ≡ c ∷ s
unfolding trim_start
trim_hex c s h = ground arith

hex_prefix_pair :
    (c d : ℕ)
    → is_hex c ≡ true
    → is_hex d ≡ true
    → hex_prefix none (c ∷ d ∷ []) ≡ some (hex_value c * 16 + hex_value d)
unfolding hex_prefix
hex_prefix_pair c d h k = ground (arith, digit_value-hex c h, digit_value-hex d k)

parse_int_16_pair :
    (c d : ℕ)
    → is_hex c ≡ true
    → is_hex d ≡ true
    → parse_int_16 (c ∷ d ∷ []) ≡ some (pos (hex_value c * 16 + hex_value d))
unfolding parse_int_16
parse_int_16_pair c d h k = rw (trim_hex c (d ∷ []) h) (ground (arith, hex_prefix_pair c d h k))

-- On hexadecimal characters the loop reads what the SDK's loop reads.
loose_pairs-parse_pairs : (s : Text) → all is_hex s ≡ true → loose_pairs s ≡ parse_pairs s
unfolding loose_pairs parse_pairs
loose_pairs-parse_pairs [] h = refl
loose_pairs-parse_pairs (c ∷ []) h = refl
loose_pairs-parse_pairs (c ∷ d ∷ s) h =
    let head = parse_int_16_pair c d (ground arith) (ground arith) in
    let here = digit_value-hex c (ground arith) in
    let there = digit_value-hex d (ground arith) in
    ap₂ (λ (b : ℕ) (bs : List ℕ). b ∷ bs) (ap to_byte head ∙ omega (arith, here, there))
      (loose_pairs-parse_pairs s (ground arith))

parse_pairs_odd : (s : Text) (c : ℕ) → length s % 2 ≡ 0 → parse_pairs (s ++ c ∷ []) ≡ parse_pairs s
unfolding parse_pairs
parse_pairs_odd [] c h = refl
parse_pairs_odd (a ∷ []) c h = absurd (omega (arith, h))
parse_pairs_odd (a ∷ b ∷ s) c h =
    ap (λ t. (hex_value a * 16 + hex_value b) ∷ t) (parse_pairs_odd s c (omega (arith, h)))

last_of : (n : ℕ) (s : Text) → length s ≡ suc n → (c : ℕ) × (s ≡ take n s ++ c ∷ [])
last_of n [] h = absurd (omega arith)
last_of zero (c ∷ []) h = (c, refl)
last_of zero (c ∷ d ∷ s) h = absurd (omega arith)
last_of (suc n) (c ∷ s) h = let (d, e) = last_of n s (omega arith) in (d, ap (λ t. c ∷ t) e)

strip_0x_hex : (s : Text) → all is_hex s ≡ true → strip_0x s ≡ s
unfolding strip_0x
strip_0x_hex [] h = refl
strip_0x_hex (a ∷ []) h = ground arith
strip_0x_hex (a ∷ b ∷ s) h = ground arith

all-take : (n : ℕ) (s : Text) → all is_hex s ≡ true → all is_hex (take n s) ≡ true
all-take zero s h = refl
all-take (suc n) [] h = refl
all-take (suc n) (c ∷ s) h = ground (arith, all-take n s (ground arith))

length-take-suc : (n : ℕ) (s : Text) → length s ≡ suc n → length (take n s) ≡ n
length-take-suc zero s h = refl
length-take-suc (suc n) [] h = absurd (omega arith)
length-take-suc (suc n) (c ∷ s) h = ap suc (length-take-suc n s (omega arith))

-- A character and forty more: the last of them is not read.
shifted :
    (c : ℕ) (s : Text)
    → is_hex c ≡ true
    → length s ≡ 40
    → all is_hex s ≡ true
    → hex_to_bytes (c ∷ s) ≡ parse_pairs (c ∷ take 39 s)
unfolding hex_to_bytes
shifted c s hc h k =
    let (d, e) = last_of 39 s h in
    ap loose_pairs (strip_0x_hex (c ∷ s) (ground arith))
    ∙ loose_pairs-parse_pairs (c ∷ s) (ground arith)
    ∙ ap (λ (t : Text). parse_pairs (c ∷ t)) e
    ∙ parse_pairs_odd (c ∷ take 39 s) d (omega (arith, length-take-suc 39 s h))

shifted-IsHexText : (s : Text) → length s ≡ 40 → all is_hex s ≡ true → IsHexText (b'1' ∷ take 39 s)
shifted-IsHexText s h k = (omega (arith, length-take-suc 39 s h), all-take 39 s k)

-- For an address of forty digits the extension sends twenty bytes, those of a 1 followed by the first
-- thirty-nine digits.
address_to_bytes-digits :
    (s : Text)
    → length s ≡ 40
    → all is_hex s ≡ true
    → (length (address_to_bytes (codes "rstn1" ++ s)) ≡ 20)
      × (to_hex (address_to_bytes (codes "rstn1" ++ s)) ≡ map lower (b'1' ∷ take 39 s))
unfolding address_to_bytes
address_to_bytes-digits s h k = rw (shifted b'1' s refl h k) (
  omega (arith, length-parse_pairs (b'1' ∷ take 39 s), length-take-suc 39 s h),
  to_hex-parse_pairs (b'1' ∷ take 39 s) (shifted-IsHexText s h k),
)

-- A text that is its own shift repeats what was put in front.
shift_fixed :
    (c n : ℕ) (s : Text)
    → length s ≡ suc n
    → map lower (c ∷ take n s) ≡ map lower s
    → map lower s ≡ replicate (suc n) (lower c)
shift_fixed c n [] h e = absurd (omega arith)
shift_fixed c zero (d ∷ []) h e = sym e
shift_fixed c zero (d ∷ f ∷ s) h e = absurd (omega arith)
shift_fixed c (suc n) (d ∷ s) h e = let ih = shift_fixed d n s (omega arith) (cc (e)) in cc (e, ih)

lower_digit : (n : ℕ) (s : Text) → map lower s ≡ replicate n b'1' → s ≡ replicate n b'1'
lower_digit zero [] e = refl
lower_digit zero (c ∷ s) e = absurd (cc e)
lower_digit (suc n) [] e = absurd (cc e)
lower_digit (suc n) (c ∷ s) e =
    let head : lower c ≡ b'1' = cc e in
    let tail = lower_digit n s (cc e) in
    let same : c ≡ b'1' = ground arith in ap₂ (λ (x : ℕ) (t : Text). x ∷ t) same tail

-- For an address of forty digits the extension sends the bytes that the SDK sends only if every digit
-- is a 1; for any other address it sends another recipient.
pub address_to_bytes_iff :
    (s : Text)
    → length s ≡ 40
    → all is_hex s ≡ true
    → (Hex.hex_to_bytes (raw_address (codes "rstn1" ++ s))
        ≡ ok (address_to_bytes (codes "rstn1" ++ s)))
      ↔ (s ≡ replicate 40 b'1')
unfolding raw_address address_to_bytes
address_to_bytes_iff s h k =
    let sent = (address_to_bytes-digits s h k).1 in
    let fits : IsHexText s = (omega (arith, h), k) in
    let read : Hex.hex_to_bytes s ≡ ok (parse_pairs s) =
      hex_to_bytes_of_IsHexText s (rw (strip_0x_hex s k) fits)
      ∙ ap (λ (t : Text). ok (parse_pairs t)) (strip_0x_hex s k) in
    (
      λ e.
          let same : parse_pairs s ≡ hex_to_bytes (b'1' ∷ s) = ok-injective (sym read ∙ e) in
          lower_digit 40 s
            (shift_fixed b'1' 39 s h (sym sent ∙ ap to_hex (sym same) ∙ to_hex-parse_pairs s fits)),
      λ e.
          read
          ∙ ap (λ (t : Text). ok (parse_pairs t)) (e ∙ ap (λ (t : Text). b'1' ∷ take 39 t) (sym e))
          ∙ ap ok (sym (shifted b'1' s refl h k)),
    )
