-- ===== src/WalletExt/Qr.antt =====
-- rstn-wallet/qr.js: the versions of a QR code and its data codewords, before error correction.
pub mod Capacity
pub mod Correction
pub mod Masks
pub mod Placement
pub mod Generate
use resistance_network.Common.{
  ℕ, zero, suc, ◌+◌, ◌-◌, ◌*◌, ◌/◌, ◌%◌, ◌^◌, Bool, true, false, ◌&&◌, List, [], ◌∷◌, ◌++◌, Text,
  codes, length, take, drop, replicate, ltb, leb, Result, ok, err, thrown, ◌>>=◌, if◌then◌else◌,
}

pub data Version : Type 0 where
  v1 v2 v3 v4 v5 : Version

-- The blocks of level M, each with its numbers of data and of correction codewords.
abbrev pub ecc_m : Version → List (ℕ × ℕ)
ecc_m Version.v1 = (16, 10) ∷ []
ecc_m Version.v2 = (28, 16) ∷ []
ecc_m Version.v3 = (44, 26) ∷ []
ecc_m Version.v4 = (32, 18) ∷ (32, 18) ∷ []
ecc_m Version.v5 = (43, 24) ∷ (43, 24) ∷ []

abbrev pub capacity : Version → ℕ
capacity Version.v1 = 14
capacity Version.v2 = 26
capacity Version.v3 = 42
capacity Version.v4 = 62
capacity Version.v5 = 84

-- The loop over the versions, smallest first.
unfoldable pub first_version : ℕ → List Version → Result Version
first_version byte_len [] =
    err (thrown (codes "QR: data too long for supported versions (max 84 bytes)"))
first_version byte_len (v ∷ vs) =
    if leb byte_len (capacity v) then ok v else first_version byte_len vs

abbrev pub versions : List Version
versions = Version.v1 ∷ Version.v2 ∷ Version.v3 ∷ Version.v4 ∷ Version.v5 ∷ []

abbrev pub choose_version : ℕ → Result Version
choose_version byte_len = first_version byte_len versions

-- `bs.push(val, len)`
abbrev pub bits : ℕ → ℕ → List ℕ
bits val zero = []
bits val (suc i) = (val / 2 ^ i) % 2 ∷ bits val i

abbrev pub all_bits : List ℕ → List ℕ
all_bits [] = []
all_bits (b ∷ bs) = bits b 8 ++ all_bits bs

-- `(b << 1) | bit`, from the first bit on
abbrev pub read_bits : ℕ → List ℕ → ℕ
read_bits acc [] = acc
read_bits acc (b ∷ bs) = read_bits (acc * 2 + b) bs

-- `bs.bytes()`: as many bytes as are begun, with 0 for a bit that is missing.
unfoldable pub stream_bytes : ℕ → List ℕ → List ℕ
stream_bytes zero bs = []
stream_bytes (suc n) bs = read_bits 0 (take 8 (bs ++ replicate 8 0)) ∷ stream_bytes n (drop 8 bs)

abbrev pub total_data : List (ℕ × ℕ) → ℕ
total_data [] = 0
total_data ((dc, ec) ∷ blocks) = dc + total_data blocks

abbrev pub min : ℕ → ℕ → ℕ
min a b = if leb a b then a else b

-- The bits with their terminator, up to four zeros, and zeros up to the next byte.
unfoldable pub padded_bits : List ℕ → ℕ → List ℕ
padded_bits bs total =
    let ended = bs ++ replicate (min 4 (total * 8 - length bs)) 0 in
    ended ++ replicate ((8 - length ended % 8) % 8) 0

-- The bytes that fill up, the two of them in turn.
abbrev pub pad_bytes : ℕ → ℕ → ℕ → List ℕ
pad_bytes zero a b = []
pad_bytes (suc n) a b = a ∷ pad_bytes n b a

-- The part of `encodeData` between the bytes of the text and the blocks.
unfoldable pub data_codewords : List ℕ → Version → List ℕ
data_codewords bytes v =
    let header = bits 4 4 ++ bits (length bytes) 8 ++ all_bits bytes in
    let total = total_data (ecc_m v) in
    let stream = padded_bits header total in
    let codewords = stream_bytes ((length stream + 7) / 8) stream in
    codewords ++ pad_bytes (total - length codewords) 0xec 0x11
