-- ===== src/WalletExt/Qr/Correction.antt =====
-- rstn-wallet/qr.js: arithmetic in GF(256), the correction codewords and the order of all codewords.
use resistance_network.Common.{
  ℕ, zero, suc, ◌+◌, ◌*◌, ◌%◌, ◌||◌, List, [], ◌∷◌, ◌++◌, map, get_elem?, take, drop, replicate,
  ltb, leb, ◌==◌, if◌then◌else◌, none, some,
}
use Prim.Native.Nat.{bit_xor}
use resistance_network.WalletExt.Qr.{Version, ecc_m, data_codewords}

-- `x <<= 1; if (x & 0x100) x ^= 0x11d`, for x < 256
abbrev pub double : ℕ → ℕ
double x = if ltb x 128 then x * 2 else bit_xor (x * 2) 0x11d

-- The table EXP from a power on, and LOG as the place in it; 0 for what is not in it.
abbrev pub powers_from : ℕ → ℕ → List ℕ
powers_from zero x = []
powers_from (suc n) x = x ∷ powers_from n (double x)

abbrev pub place : ℕ → List ℕ → ℕ → ℕ
place x [] i = 0
place x (y ∷ ys) i = if x == y then i else place x ys (i + 1)

abbrev pub at_or_zero : List ℕ → ℕ → ℕ
at_or_zero [] i = 0
at_or_zero (x ∷ xs) zero = x
at_or_zero (x ∷ xs) (suc i) = at_or_zero xs i

unfoldable pub exp : ℕ → ℕ
exp i = at_or_zero (powers_from 255 1) (i % 255)

unfoldable pub log : ℕ → ℕ
log x = place x (powers_from 255 1) 0

unfoldable pub gf_mul : ℕ → ℕ → ℕ
gf_mul a b = if a == 0 || b == 0 then 0 else exp ((log a + log b) % 255)

-- Entry by entry, the longer list to its end: a missing entry is `undefined`, which `^` takes for 0.
abbrev pub xor_lists : List ℕ → List ℕ → List ℕ
xor_lists [] ys = ys
xor_lists (x ∷ xs) [] = x ∷ xs
xor_lists (x ∷ xs) (y ∷ ys) = bit_xor x y ∷ xor_lists xs ys

-- The rounds left, the round, the polynomial so far.
unfoldable pub gen_rounds : ℕ → ℕ → List ℕ → List ℕ
gen_rounds zero i poly = poly
gen_rounds (suc n) i poly =
    gen_rounds n (i + 1) (xor_lists (poly ++ 0 ∷ []) (0 ∷ map (λ p. gf_mul p (exp i)) poly))

unfoldable pub rs_gen_poly : ℕ → List ℕ
rs_gen_poly deg = gen_rounds deg 0 (1 ∷ [])

-- One data codeword: the register is shifted, and the whole generator, its leading 1 included, is added
-- from the front on; so the register grows by one entry.
unfoldable pub rs_step : List ℕ → ℕ → List ℕ → List ℕ
rs_step gen d res =
    let factor = bit_xor d (at_or_zero res 0) in
    let shifted = drop 1 res ++ 0 ∷ [] in
    if factor == 0 then shifted else xor_lists shifted (map (λ g. gf_mul g factor) gen)

unfoldable pub rs_rounds : List ℕ → List ℕ → List ℕ → List ℕ
rs_rounds gen [] res = res
rs_rounds gen (d ∷ ds) res = rs_rounds gen ds (rs_step gen d res)

unfoldable pub rs_encode : List ℕ → ℕ → List ℕ
rs_encode content ecc_len = rs_rounds (rs_gen_poly ecc_len) content (replicate ecc_len 0)

-- The data and the correction codewords of the blocks.
unfoldable pub split_blocks : List (ℕ × ℕ) → List ℕ → List (List ℕ) × List (List ℕ)
split_blocks [] content = ([], [])
split_blocks ((dc, ec) ∷ blocks) content =
    let blk = take dc content in
    let rest = split_blocks blocks (drop dc content) in (blk ∷ rest.0, rs_encode blk ec ∷ rest.1)

-- The entries at one place, of the blocks that have one.
abbrev pub column : ℕ → List (List ℕ) → List ℕ
column i [] = []
column i (b ∷ bs) =
    let rest = column i bs in elim (get_elem? b i) [ none ↦ rest | some x ↦ x ∷ rest ]

-- The places left, and the place.
abbrev pub interleave : ℕ → ℕ → List (List ℕ) → List ℕ
interleave zero i bs = []
interleave (suc n) i bs = column i bs ++ interleave n (i + 1) bs

abbrev pub max_of : (ℕ × ℕ → ℕ) → List (ℕ × ℕ) → ℕ
max_of f [] = 0
max_of f (b ∷ bs) = if leb (f b) (max_of f bs) then max_of f bs else f b

-- `encodeData`, behind the bytes of the text.
unfoldable pub encode_data : List ℕ → Version → List ℕ
encode_data bytes v =
    let blocks = split_blocks (ecc_m v) (data_codewords bytes v) in
    interleave (max_of (λ b. b.0) (ecc_m v)) 0 blocks.0
    ++ interleave (max_of (λ b. b.1) (ecc_m v)) 0 blocks.1
