-- ===== src/TxHelpers/LittleEndian.antt =====
-- src/lib/rstn-tx-helpers.ts: `u128ToLeBytes` and `u64ToLeBytes`. A bigint is an integer of any size
-- and sign, read in two's complement by `&` and `>>`.
pub mod Residue
use resistance_network.Common.{ℕ, zero, suc, ◌-◌, ◌/◌, ◌%◌, List, [], ◌∷◌}
use resistance_network.Common.Int.{ℤ, pos, negsuc}

-- `Number(v & 0xffn)`; the bits of -(n + 1) are those of n turned over.
abbrev pub low_byte : ℤ → ℕ
low_byte (pos n) = n % 256
low_byte (negsuc n) = 255 - n % 256

-- `v >> 8n`, which rounds down
abbrev pub shift_byte : ℤ → ℤ
shift_byte (pos n) = pos (n / 256)
shift_byte (negsuc n) = negsuc (n / 256)

-- The loop: the bytes that `k` more rounds write.
unfoldable pub le_bytes : ℕ → ℤ → List ℕ
le_bytes zero v = []
le_bytes (suc k) v = low_byte v ∷ le_bytes k (shift_byte v)

unfoldable pub u128_to_le_bytes : ℤ → List ℕ
u128_to_le_bytes v = le_bytes 16 v

unfoldable pub u64_to_le_bytes : ℤ → List ℕ
u64_to_le_bytes v = le_bytes 8 v
