-- ===== src/WalletExt/Qr/Placement.antt =====
-- rstn-wallet/qr.js: the matrix with its patterns, the data in it, and the format information.
pub mod Reserved
use resistance_network.Common.{
  ℕ, zero, suc, ◌+◌, ◌-◌, ◌*◌, ◌/◌, ◌%◌, ◌^◌, Bool, true, false, not, ◌&&◌, ◌||◌, List, [], ◌∷◌,
  ◌++◌, length, map, replicate, ltb, leb, ◌==◌, if◌then◌else◌,
}
use resistance_network.WalletExt.Qr.{Version}
use resistance_network.WalletExt.Qr.Correction.{at_or_zero}
use resistance_network.WalletExt.Qr.Masks.{Matrix}

abbrev pub number_of : Version → ℕ
number_of Version.v1 = 1
number_of Version.v2 = 2
number_of Version.v3 = 3
number_of Version.v4 = 4
number_of Version.v5 = 5

abbrev pub size_of : Version → ℕ
size_of v = 4 * number_of v + 17

-- The last of the positions of the alignment patterns; the other one is 6. Version 1 has none.
abbrev pub align_pos : Version → List ℕ
align_pos Version.v1 = []
align_pos Version.v2 = 6 ∷ 18 ∷ []
align_pos Version.v3 = 6 ∷ 22 ∷ []
align_pos Version.v4 = 6 ∷ 26 ∷ []
align_pos Version.v5 = 6 ∷ 30 ∷ []

-- `m` and `reserved`
pub record Board : Type 0 where
  pub m : Matrix
  pub reserved : Matrix

-- The numbers from `i` on, `n` of them.
abbrev pub range_from : ℕ → ℕ → List ℕ
range_from i zero = []
range_from i (suc n) = i ∷ range_from (i + 1) n

-- `for (const a of as) s = f(a, s)`
abbrev pub each {ℓ κ} : {A : Type ℓ} → {S : Type κ} → (A → S → S) → List A → S → S
each f [] s = s
each f (a ∷ as') s = each f as' (f a s)

-- An entry, and its assignment; all places of the source lie in the matrix.
unfoldable pub set_at {ℓ} : {A : Type ℓ} → ℕ → A → List A → List A
set_at i a [] = []
set_at zero a (x ∷ xs) = a ∷ xs
set_at (suc i) a (x ∷ xs) = x ∷ set_at i a xs

abbrev pub row_at : ℕ → Matrix → List Bool
row_at i [] = []
row_at zero (r ∷ rs) = r
row_at (suc i) (r ∷ rs) = row_at i rs

abbrev pub entry : ℕ → List Bool → Bool
entry i [] = false
entry zero (x ∷ xs) = x
entry (suc i) (x ∷ xs) = entry i xs

unfoldable pub cell : ℕ → ℕ → Matrix → Bool
cell r c m = entry c (row_at r m)

unfoldable pub put : ℕ → ℕ → Bool → Matrix → Matrix
put r c b m = set_at r (set_at c b (row_at r m)) m

unfoldable pub set_fn : ℕ → ℕ → Bool → Board → Board
set_fn r c dark b = record { m = put r c dark b.m; reserved = put r c true b.reserved }

abbrev pub blank : ℕ → Matrix
blank size = replicate size (replicate size false)

-- One module of a finder pattern; `i` and `j` are `dr + 1` and `dc + 1`.
unfoldable pub finder_dark : ℕ → ℕ → Bool
finder_dark i j =
    not (i == 0 || i == 8 || j == 0 || j == 8)
    && ((i == 1 || i == 7) || (j == 1 || j == 7) || leb 3 i && leb i 5 && leb 3 j && leb j 5)

unfoldable pub finder_module : ℕ → ℕ → ℕ → ℕ → ℕ → Board → Board
finder_module size r0 c0 i j b =
    if leb 1 (r0 + i) && leb (r0 + i) size && leb 1 (c0 + j) && leb (c0 + j) size
    then set_fn (r0 + i - 1) (c0 + j - 1) (finder_dark i j) b
    else b

unfoldable pub place_finder : ℕ → ℕ → ℕ → Board → Board
place_finder size r0 c0 b =
    each (λ i s. each (λ j t. finder_module size r0 c0 i j t) (range_from 0 9) s) (range_from 0 9) b

unfoldable pub place_timing : ℕ → Board → Board
place_timing size b =
    each (λ i s. set_fn i 6 (i % 2 == 0) (set_fn 6 i (i % 2 == 0) s)) (range_from 8 (size - 16)) b

abbrev pub last_of : List ℕ → ℕ
last_of [] = 0
last_of (x ∷ []) = x
last_of (x ∷ y ∷ xs) = last_of (y ∷ xs)

-- One alignment pattern; `i` and `j` are `dr + 2` and `dc + 2`.
unfoldable pub align_dark : ℕ → ℕ → Bool
align_dark i j = i == 0 || i == 4 || j == 0 || j == 4 || i == 2 && j == 2

unfoldable pub align_at : ℕ → ℕ → Board → Board
align_at r c b =
    each (λ i s. each (λ j t. set_fn (r + i - 2) (c + j - 2) (align_dark i j) t) (range_from 0 5) s)
      (range_from 0 5) b

abbrev pub is_corner : ℕ → ℕ → ℕ → Bool
is_corner last r c = r == 6 && c == 6 || r == 6 && c == last || r == last && c == 6

unfoldable pub place_alignment : List ℕ → Board → Board
place_alignment pos b =
    each (λ r s. each (λ c t. if is_corner (last_of pos) r c then t else align_at r c t) pos s) pos
      b

-- The areas of the format information, and the dark module.
unfoldable pub reserve_format : ℕ → Board → Board
reserve_format size b =
    let near =
      each (λ i s. if i == 6 then s else set_fn i 8 false (set_fn 8 i false s)) (range_from 0 9)
        b in
    let far =
      each (λ i s. set_fn (size - 1 - i) 8 false (set_fn 8 (size - 1 - i) false s)) (range_from 0 8)
        near in
    set_fn (size - 8) 8 true far

unfoldable pub patterns : Version → Board
patterns v =
    let size = size_of v in
    reserve_format size (
      place_alignment (align_pos v) (
        place_timing size (
          place_finder size (size - 7) 0 (
            place_finder size 0 (size - 7)
              (place_finder size 0 0 (record { m = blank size; reserved = blank size }))))))

-- The places in the order in which the data take them: two columns at a time, but for the column 6.
abbrev pub column_pair : ℕ → Bool → ℕ → ℕ → List (ℕ × ℕ)
column_pair size up col zero = []
column_pair size up col (suc n) =
    let row = if up then n else size - 1 - n in
    (row, col) ∷ (row, col - 1) ∷ column_pair size up col n

-- The rounds of the loop that are left, one for each column at most.
unfoldable pub zigzag : ℕ → ℕ → ℕ → Bool → List (ℕ × ℕ)
zigzag zero size col up = []
zigzag (suc n) size col up =
    let c = if col == 6 then 5 else col in
    let rest = zigzag n size (c - 2) (not up) in
    if col == 0 then [] else column_pair size up c size ++ rest

abbrev pub data_bit : List ℕ → ℕ → Bool
data_bit bytes i = ltb i (length bytes * 8) && (at_or_zero bytes (i / 8) / 2 ^ (7 - i % 8)) % 2 == 1

-- The bits, from the number `i` on, in the places that are not reserved.
unfoldable pub place_bits : List ℕ → Matrix → List (ℕ × ℕ) → ℕ → Matrix → Matrix
place_bits bytes reserved [] i m = m
place_bits bytes reserved ((r, c) ∷ ps) i m =
    if cell r c reserved
    then place_bits bytes reserved ps i m
    else place_bits bytes reserved ps (i + 1) (put r c (data_bit bytes i) m)

unfoldable pub build_matrix : Version → List ℕ → Board
build_matrix v bytes =
    let b = patterns v in
    let size = size_of v in
    record b { m = place_bits bytes b.reserved (zigzag size size (size - 1) true) 0 b.m }

-- `f[i]`, of the 15 bits of the format
abbrev pub format_bit : ℕ → ℕ → Bool
format_bit bits i = (bits / 2 ^ (14 - i)) % 2 == 1

unfoldable pub place_format : Matrix → ℕ → ℕ → Matrix
place_format m size bits =
    let row = each (λ i s. put 8 i (format_bit bits i) s) (range_from 0 6) m in
    let corner =
      put 7 8 (format_bit bits 8) (put 8 8 (format_bit bits 7) (put 8 7 (format_bit bits 6) row)) in
    let up = each (λ i s. put (14 - i) 8 (format_bit bits i) s) (range_from 9 6) corner in
    let right = each (λ i s. put 8 (size - 1 - i) (format_bit bits i) s) (range_from 0 8) up in
    each (λ i s. put (size - 7 + i) 8 (format_bit bits (8 + i)) s) (range_from 0 7) right
