-- ===== src/TxHelpers/Hex.antt =====
-- src/lib/rstn-tx-helpers.ts: `toHex` and `hexToBytes`. A Uint8Array is a list of bytes.
pub mod RoundTrip
pub mod Parsing
use resistance_network.Common.{
  ℕ, ◌+◌, ◌-◌, ◌*◌, ◌/◌, ◌%◌, ◌<◌, Bool, not, ◌&&◌, ◌||◌, List, [], ◌∷◌, ◌++◌, Text, codes, ltb,
  leb, ◌==◌, if◌then◌else◌, length, drop, replicate, all, starts_with, Result, ok, err, odd_length,
  invalid_hex,
}

abbrev pub IsByte : ℕ → Type 0
IsByte b = b < 256

-- The character of a digit below 16, in lower case.
abbrev pub hex_digit : ℕ → ℕ
hex_digit d = if ltb d 10 then d + b'0' else d + 87

-- `b.toString(16)` of a byte
abbrev pub to_string_16 : ℕ → Text
to_string_16 b = if ltb b 16 then hex_digit b ∷ [] else hex_digit (b / 16) ∷ hex_digit (b % 16) ∷ []

-- `s.padStart(n, c)` for one character `c`
abbrev pub pad_start : ℕ → ℕ → Text → Text
pad_start n c s = replicate (n - length s) c ++ s

unfoldable pub to_hex : List ℕ → Text
to_hex [] = []
to_hex (b ∷ bs) = pad_start 2 b'0' (to_string_16 b) ++ to_hex bs

-- `hex.startsWith("0x") ? hex.slice(2) : hex`
unfoldable pub strip_0x : Text → Text
strip_0x s = if starts_with (codes "0x") s then drop 2 s else s

-- The class `[0-9a-fA-F]`.
abbrev pub is_hex : ℕ → Bool
is_hex c = leb b'0' c && leb c b'9' || leb b'a' c && leb c b'f' || leb b'A' c && leb c b'F'

-- The digit that `parseInt(…, 16)` reads in a character of that class.
abbrev pub hex_value : ℕ → ℕ
hex_value c = if leb c b'9' then c - b'0' else if leb c b'F' then c - 55 else c - 87

-- The loop over `i += 2`. It is entered at an even length only.
unfoldable pub parse_pairs : Text → List ℕ
parse_pairs [] = []
parse_pairs (c ∷ []) = []
parse_pairs (c ∷ d ∷ s) = (hex_value c * 16 + hex_value d) ∷ parse_pairs s

unfoldable pub hex_to_bytes : Text → Result (List ℕ)
hex_to_bytes hex =
    let clean = strip_0x hex in
    if not (length clean % 2 == 0)
    then err (odd_length (length clean))
    else if not (all is_hex clean)
    then err invalid_hex
    else ok (parse_pairs clean)
