-- ===== src/Runs/Extension/Qr.antt =====
-- Runs of rstn-wallet/qr.js.
use resistance_network.WalletExt.Qr.Placement.{
  patterns, place_finder, finder_module, set_fn, put, set_at, place_timing, place_alignment,
  align_at, align_dark, finder_dark, reserve_format, cell, build_matrix,
}
use resistance_network.WalletExt.Qr.Placement.Reserved.{build_matrix-reserved}
use resistance_network.WalletExt.Qr.Generate.{generate, utf8_length, text_bytes, unit_bytes}
use resistance_network.WalletExt.Qr.Masks.{format_bits, bch_rounds, apply_mask}
use resistance_network.Common.{
  codes, thrown, ℕ, ◌≡◌, refl, true, err, List, [], ◌∷◌, length, take, ok, replicate,
}
use Prim.Native.Nat.{bit_xor}
use resistance_network.WalletExt.Qr.{
  Version, ecc_m, choose_version, first_version, total_data, data_codewords,
}
use resistance_network.WalletExt.Qr.Capacity.{length-data_codewords}
use resistance_network.WalletExt.Qr.Correction.{
  exp, log, gf_mul, gen_rounds, rs_gen_poly, rs_step, rs_rounds, rs_encode,
}

abbrev xor_all : List ℕ → ℕ
xor_all [] = 0
xor_all (x ∷ xs) = bit_xor x (xor_all xs)

powers_run : gf_mul 3 7 ≡ 9
unfolding gf_mul exp log
powers_run = refl

generator_run : rs_gen_poly 2 ≡ 1 ∷ 3 ∷ 2 ∷ []
unfolding rs_gen_poly gen_rounds gf_mul exp log
generator_run = refl

-- With the leading 1 of the generator left out, the register would hold 3 and 2 behind the data 1, and
-- their sum with it would be 0.
correction_run : rs_encode (1 ∷ []) 2 ≡ 1 ∷ 3 ∷ 2 ∷ []
unfolding rs_encode rs_rounds rs_step rs_gen_poly gen_rounds gf_mul exp log
correction_run = refl

sum_run : xor_all (1 ∷ take 2 (rs_encode (1 ∷ []) 2)) ≡ 3
unfolding rs_encode rs_rounds rs_step rs_gen_poly gen_rounds gf_mul exp log
sum_run = refl

fourteen_fit : choose_version 14 ≡ ok Version.v1
unfolding first_version
fourteen_fit = refl

length-data_codewords_example :
    length (data_codewords (replicate 14 65) Version.v1) ≡ total_data (ecc_m Version.v1)
length-data_codewords_example = length-data_codewords (replicate 14 65) Version.v1 fourteen_fit

-- The format information of level M for the first and the last mask, as the standard lists it.
format_run : (format_bits 0 0 ≡ 0x5412) × (format_bits 0 7 ≡ 0x4aa0)
unfolding format_bits bch_rounds
format_run = (refl, refl)

-- The first module of the first finder pattern.
corner_run : cell 0 0 (patterns Version.v1).reserved ≡ true
unfolding patterns place_finder finder_module set_fn put set_at place_timing place_alignment
    align_at align_dark finder_dark reserve_format cell
corner_run = refl

build_matrix-reserved_example :
    cell 0 0 (
      apply_mask
        (build_matrix Version.v1 (64 ∷ [])).m
        (build_matrix Version.v1 (64 ∷ [])).reserved
        3)
    ≡ cell 0 0 (patterns Version.v1).m
build_matrix-reserved_example = build_matrix-reserved Version.v1 (64 ∷ []) 3 0 0 corner_run

-- The face U+1F600 has no QR code.
face_run : generate (0xd83d ∷ 0xde00 ∷ []) ≡ err (thrown (codes "URI malformed"))
unfolding generate utf8_length text_bytes unit_bytes first_version
face_run = refl
