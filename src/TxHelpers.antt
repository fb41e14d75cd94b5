-- ===== src/TxHelpers.antt =====
-- src/lib/rstn-tx-helpers.ts: hexadecimal text, little-endian integers and the transaction encoding.
pub mod Hex
pub mod LittleEndian
pub mod BigInt
pub mod Encode
