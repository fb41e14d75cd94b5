-- ===== src/WalletExt/Bytes.antt =====
-- rstn-wallet/wallet-lib.js: its `hexToBytes`, which checks nothing, and `addressToBytes`. The functions
-- `toHex`, `u128ToLeBytes` and `u64ToLeBytes` of the file have the text of those in
-- src/lib/rstn-tx-helpers.ts, and are taken from there.
pub mod Recipient
use resistance_network.Common.{
  ℕ, ◌-◌, ◌*◌, ◌+◌, ◌%◌, Bool, true, false, ◌||◌, List, [], ◌∷◌, Text, codes, starts_with, drop,
  trim_start, ltb, ◌==◌, if◌then◌else◌, Option, none, some,
}
use resistance_network.Common.Int.{ℤ, pos, negsuc}
use resistance_network.TxHelpers.Hex.{strip_0x}
use resistance_network.TxHelpers.BigInt.{digit_value, negate, has_prefix}
use resistance_network.TxHelpers.LittleEndian.{low_byte}

-- The hexadecimal digits at the front of a text, behind the number read so far, if one was.
unfoldable pub hex_prefix : Option ℕ → Text → Option ℕ
hex_prefix acc [] = acc
hex_prefix none (c ∷ s) =
    let rest = hex_prefix (some (digit_value c)) s in if ltb (digit_value c) 16 then rest else none
hex_prefix (some n) (c ∷ s) =
    let rest = hex_prefix (some (n * 16 + digit_value c)) s in
    if ltb (digit_value c) 16 then rest else some n

-- `parseInt(s, 16)` behind its sign: `0x` or `0X` in front is dropped.
abbrev pub parse_unsigned_16 : Text → Option ℕ
parse_unsigned_16 s = hex_prefix none (if has_prefix b'x' b'X' s then drop 2 s else s)

abbrev pub map_sign : (ℕ → ℤ) → Option ℕ → Option ℤ
map_sign f none = none
map_sign f (some n) = some (f n)

-- `parseInt(s, 16)`, where NaN is `none`.
unfoldable pub parse_int_16 : Text → Option ℤ
unfolding trim_start
parse_int_16 s =
    let t = trim_start s in
    if starts_with (codes "-") t
    then map_sign negate (parse_unsigned_16 (drop 1 t))
    else map_sign pos (parse_unsigned_16 (if starts_with (codes "+") t then drop 1 t else t))

-- What a number becomes in a `Uint8Array`.
abbrev pub to_byte : Option ℤ → ℕ
to_byte none = 0
to_byte (some z) = low_byte z

-- The loop over `i += 2`. The array has half as many places as the text has characters, rounded down,
-- so that what is read of a last character alone is written nowhere.
unfoldable pub loose_pairs : Text → List ℕ
loose_pairs [] = []
loose_pairs (c ∷ []) = []
loose_pairs (c ∷ d ∷ s) = to_byte (parse_int_16 (c ∷ d ∷ [])) ∷ loose_pairs s

unfoldable pub hex_to_bytes : Text → List ℕ
hex_to_bytes hex = loose_pairs (strip_0x hex)

-- `addr.startsWith("rstn1") ? addr.slice(4) : addr`
unfoldable pub address_to_bytes : Text → List ℕ
address_to_bytes addr =
    hex_to_bytes (if starts_with (codes "rstn1") addr then drop 4 addr else addr)
