-- ===== src/TxHelpers/Hex/Parsing.antt =====
-- What `hexToBytes` accepts, and which bytes it returns.
use resistance_network.Common.{
  ℕ, ◌+◌, ◌*◌, ◌/◌, ◌%◌, ◌<◌, ◌≡◌, ◌↔◌, refl, true, List, [], ◌∷◌, Text, leb, if◌then◌else◌, length,
  all, All, ok, arith, map, ap, sym, ◌∙◌, ◌&&◌,
}
use resistance_network.TxHelpers.Hex.{
  IsByte, is_hex, hex_value, hex_digit, to_hex, parse_pairs, strip_0x, hex_to_bytes,
}
use resistance_network.TxHelpers.Hex.RoundTrip.{to_hex-cons, parse_pairs-to_hex}

-- A letter in lower case, any other character as it is.
abbrev pub lower : ℕ → ℕ
lower c = if leb b'A' c && leb c b'Z' then c + 32 else c

-- A text that the loop reads whole: pairs of hexadecimal characters.
abbrev pub IsHexText : Text → Type 0
IsHexText s = (length s % 2 ≡ 0) × (all is_hex s ≡ true)

hex_value-lt : (c : ℕ) → is_hex c ≡ true → hex_value c < 16
hex_value-lt c h = ground arith

hex_digit-hex_value : (c : ℕ) → is_hex c ≡ true → hex_digit (hex_value c) ≡ lower c
hex_digit-hex_value c h = ground arith

pub parse_pairs-IsByte : (s : Text) → all is_hex s ≡ true → All IsByte (parse_pairs s)
unfolding parse_pairs
parse_pairs-IsByte [] h = tt
parse_pairs-IsByte (c ∷ []) h = tt
parse_pairs-IsByte (c ∷ d ∷ s) h =
    ground (arith, hex_value-lt c, hex_value-lt d, parse_pairs-IsByte s)

pub length-parse_pairs : (s : Text) → length (parse_pairs s) ≡ length s / 2
unfolding parse_pairs
length-parse_pairs [] = omega arith
length-parse_pairs (c ∷ []) = omega arith
length-parse_pairs (c ∷ d ∷ s) = omega (arith, length-parse_pairs s)

-- The two digits of a byte are those that it was read from.
pair_eq :
    (c d : ℕ) (s : Text) (hi lo : ℕ)
    → hi ≡ hex_value c
    → lo ≡ hex_value d
    → is_hex c ≡ true
    → is_hex d ≡ true
    → to_hex (parse_pairs s) ≡ map lower s
    → hex_digit hi ∷ hex_digit lo ∷ to_hex (parse_pairs s) ≡ map lower (c ∷ d ∷ s)
pair_eq c d s hi lo p q hc hd e = rw (p, q, hex_digit-hex_value c hc, hex_digit-hex_value d hd, e)

pub to_hex-parse_pairs : (s : Text) → IsHexText s → to_hex (parse_pairs s) ≡ map lower s
unfolding parse_pairs
to_hex-parse_pairs [] h = unfold to_hex in refl
to_hex-parse_pairs (c ∷ []) h = absurd (omega (arith, h.0))
to_hex-parse_pairs (c ∷ d ∷ s) h =
    let c_lt : hex_value c < 16 = hex_value-lt c (ground arith) in
    let d_lt : hex_value d < 16 = hex_value-lt d (ground arith) in
    rw (to_hex-cons (hex_value c * 16 + hex_value d) (parse_pairs s) (omega arith)) (
      pair_eq c d s _ _ (omega arith) (omega arith) (ground arith) (ground arith)
        (to_hex-parse_pairs s (omega arith, ground arith)))

to_hex-injective :
    (xs bs : List ℕ) → All IsByte xs → All IsByte bs → to_hex xs ≡ to_hex bs → xs ≡ bs
to_hex-injective xs bs ha hb e =
    sym (parse_pairs-to_hex xs ha) ∙ ap parse_pairs e ∙ parse_pairs-to_hex bs hb

pub hex_to_bytes_of_IsHexText :
    (hex : Text) → IsHexText (strip_0x hex) → hex_to_bytes hex ≡ ok (parse_pairs (strip_0x hex))
unfolding hex_to_bytes
hex_to_bytes_of_IsHexText hex h = ground arith

pub hex_to_bytes-eq-ok :
    (hex : Text) (bs : List ℕ)
    → hex_to_bytes hex ≡ ok bs
    → IsHexText (strip_0x hex) × (parse_pairs (strip_0x hex) ≡ bs)
unfolding hex_to_bytes
hex_to_bytes-eq-ok hex bs e = ground arith

-- `hexToBytes` returns `bs` exactly when what follows an optional "0x" is an even number of
-- hexadecimal characters, `bs` are bytes, and they print as those characters in lower case.
pub hex_to_bytes_iff :
    (hex : Text) (bs : List ℕ)
    → (hex_to_bytes hex ≡ ok bs)
      ↔ (IsHexText (strip_0x hex) × All IsByte bs × (to_hex bs ≡ map lower (strip_0x hex)))
hex_to_bytes_iff hex bs = (
  λ e.
      let (fits, same) = hex_to_bytes-eq-ok hex bs e in
      (fits, rw (← same) (parse_pairs-IsByte _ fits.1), rw (← same) (to_hex-parse_pairs _ fits)),
  λ h.
      hex_to_bytes_of_IsHexText hex h.0
      ∙ ap ok (
          to_hex-injective _ bs (parse_pairs-IsByte _ h.0.1) h.1
            (to_hex-parse_pairs _ h.0 ∙ sym h.2)),
)
