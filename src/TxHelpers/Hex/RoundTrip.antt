-- ===== src/TxHelpers/Hex/RoundTrip.antt =====
-- Reading back what `toHex` printed.
use resistance_network.Common.{
  ℕ, ◌*◌, ◌/◌, ◌%◌, ◌<◌, ◌≡◌, refl, true, List, [], ◌∷◌, length, all, All, ok, arith,
}
use resistance_network.TxHelpers.Hex.{
  IsByte, is_hex, hex_value, hex_digit, to_hex, parse_pairs, strip_0x, hex_to_bytes,
}

-- The two characters of a byte.
pub to_hex-cons :
    (b : ℕ) (bs : List ℕ)
    → IsByte b
    → to_hex (b ∷ bs) ≡ hex_digit (b / 16) ∷ hex_digit (b % 16) ∷ to_hex bs
unfolding to_hex
to_hex-cons b bs h = ground arith

hex_value-hex_digit : (d : ℕ) → d < 16 → hex_value (hex_digit d) ≡ d
hex_value-hex_digit d h = ground arith

is_hex-hex_digit : (d : ℕ) → d < 16 → is_hex (hex_digit d) ≡ true
is_hex-hex_digit d h = ground arith

pub parse_pairs-to_hex : (bs : List ℕ) → All IsByte bs → parse_pairs (to_hex bs) ≡ bs
unfolding parse_pairs to_hex
parse_pairs-to_hex [] h = refl
parse_pairs-to_hex (b ∷ bs) h =
    unfold parse_pairs in
    rw (to_hex-cons b bs h.0) (
      ground (
        arith,
        hex_value-hex_digit (b / 16) (omega arith),
        hex_value-hex_digit (b % 16) (omega arith),
        parse_pairs-to_hex bs h.1,
      ))

pub all-is_hex-to_hex : (bs : List ℕ) → All IsByte bs → all is_hex (to_hex bs) ≡ true
unfolding to_hex
all-is_hex-to_hex [] h = refl
all-is_hex-to_hex (b ∷ bs) h = rw (to_hex-cons b bs h.0) (
    ground (
      arith,
      is_hex-hex_digit (b / 16) (omega arith),
      is_hex-hex_digit (b % 16) (omega arith),
      all-is_hex-to_hex bs h.1,
    ))

pub length-to_hex : (bs : List ℕ) → All IsByte bs → length (to_hex bs) ≡ 2 * length bs
unfolding to_hex
length-to_hex [] h = refl
length-to_hex (b ∷ bs) h = rw (to_hex-cons b bs h.0) (omega (arith, length-to_hex bs h.1))

-- The second character is a digit, and no `x`.
strip_0x-to_hex : (bs : List ℕ) → All IsByte bs → strip_0x (to_hex bs) ≡ to_hex bs
unfolding strip_0x
strip_0x-to_hex [] h = unfold to_hex in refl
strip_0x-to_hex (b ∷ bs) h = rw (to_hex-cons b bs h.0) (ground arith)

-- `hexToBytes` reads back every list of bytes that `toHex` printed.
pub hex_to_bytes-to_hex : (bs : List ℕ) → All IsByte bs → hex_to_bytes (to_hex bs) ≡ ok bs
unfolding hex_to_bytes
hex_to_bytes-to_hex bs h = ground (
  arith,
  strip_0x-to_hex bs h,
  length-to_hex bs h,
  all-is_hex-to_hex bs h,
  parse_pairs-to_hex bs h,
)
