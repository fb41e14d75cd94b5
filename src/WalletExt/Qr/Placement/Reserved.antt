-- ===== src/WalletExt/Qr/Placement/Reserved.antt =====
-- The data leave the patterns of a QR code alone, and have room beside them.
use resistance_network.Common.{
  ℕ, zero, suc, ◌+◌, ◌-◌, ◌*◌, ◌≤◌, ◌<◌, ◌≡◌, refl, sym, ap, ◌∙◌, Bool, true, false, ◌&&◌, ◌==◌,
  List, [], ◌∷◌, if◌then◌else◌, arith, ==_iff, Bool-cases, inl, inr, ap₂, and_left, and_right,
}
use resistance_network.WalletExt.Qr.{Version, ecc_m}
use resistance_network.WalletExt.Qr.Masks.{Matrix, mask_row, mask_rows, apply_mask}
use resistance_network.WalletExt.Qr.Placement.{
  size_of, set_at, row_at, entry, cell, put, set_fn, finder_dark, finder_module, place_finder,
  place_timing, align_dark, align_at, place_alignment, reserve_format, patterns, zigzag, data_bit,
  place_bits, build_matrix,
}

-- The places that the data can take.
abbrev pub free_places : Matrix → List (ℕ × ℕ) → ℕ
free_places reserved [] = 0
free_places reserved ((r, c) ∷ ps) = (if cell r c reserved then 0 else 1) + free_places reserved ps

abbrev pub codewords : List (ℕ × ℕ) → ℕ
codewords [] = 0
codewords ((dc, ec) ∷ bs) = dc + ec + codewords bs

abbrev pub room : Version → ℕ
room v = free_places (patterns v).reserved (zigzag (size_of v) (size_of v) (size_of v - 1) true)

room_v1 : room Version.v1 ≡ 208
unfolding patterns place_finder finder_module set_fn put set_at place_timing place_alignment
    align_at align_dark finder_dark reserve_format zigzag cell
room_v1 = refl

room_v2 : room Version.v2 ≡ 359
unfolding patterns place_finder finder_module set_fn put set_at place_timing place_alignment
    align_at align_dark finder_dark reserve_format zigzag cell
room_v2 = refl

room_v3 : room Version.v3 ≡ 567
unfolding patterns place_finder finder_module set_fn put set_at place_timing place_alignment
    align_at align_dark finder_dark reserve_format zigzag cell
room_v3 = refl

room_v4 : room Version.v4 ≡ 807
unfolding patterns place_finder finder_module set_fn put set_at place_timing place_alignment
    align_at align_dark finder_dark reserve_format zigzag cell
room_v4 = refl

room_v5 : room Version.v5 ≡ 1079
unfolding patterns place_finder finder_module set_fn put set_at place_timing place_alignment
    align_at align_dark finder_dark reserve_format zigzag cell
room_v5 = refl

-- The data of a version fill all free places but the seven, at most, that are too few for a codeword.
room_lem :
    (v : Version) → (8 * codewords (ecc_m v) ≤ room v) × (room v < 8 * codewords (ecc_m v) + 8)
room_lem Version.v1 = (rw room_v1 (omega arith), rw room_v1 (omega arith))
room_lem Version.v2 = (rw room_v2 (omega arith), rw room_v2 (omega arith))
room_lem Version.v3 = (rw room_v3 (omega arith), rw room_v3 (omega arith))
room_lem Version.v4 = (rw room_v4 (omega arith), rw room_v4 (omega arith))
room_lem Version.v5 = (rw room_v5 (omega arith), rw room_v5 (omega arith))

entry-set_at :
    (i j : ℕ) (a : Bool) (xs : List Bool) → (i == j) ≡ false → entry j (set_at i a xs) ≡ entry j xs
unfolding set_at
entry-set_at i j a [] h = refl
entry-set_at zero zero a (x ∷ xs) h = absurd (cc)
entry-set_at zero (suc j) a (x ∷ xs) h = refl
entry-set_at (suc i) zero a (x ∷ xs) h = refl
entry-set_at (suc i) (suc j) a (x ∷ xs) h = entry-set_at i j a xs (ground arith)

row_at-set_at :
    (i j : ℕ) (a : List Bool) (m : Matrix) → (i == j) ≡ false → row_at j (set_at i a m) ≡ row_at j m
unfolding set_at
row_at-set_at i j a [] h = refl
row_at-set_at zero zero a (x ∷ m) h = absurd (cc)
row_at-set_at zero (suc j) a (x ∷ m) h = refl
row_at-set_at (suc i) zero a (x ∷ m) h = refl
row_at-set_at (suc i) (suc j) a (x ∷ m) h = row_at-set_at i j a m (ground arith)

same_row :
    (r c j : ℕ) (b : Bool) (row : List Bool) (m : Matrix)
    → row_at r m ≡ row
    → (c == j) ≡ false
    → entry j (row_at r (set_at r (set_at c b row) m)) ≡ entry j row
unfolding set_at
same_row r c j b row [] e h = ap (entry j) e
same_row zero c j b row (x ∷ m) e h = entry-set_at c j b row h
same_row (suc r) c j b row (x ∷ m) e h = same_row r c j b row m e h

cell-put :
    (r c i j : ℕ) (b : Bool) (m : Matrix)
    → (r == i && c == j) ≡ false
    → cell i j (put r c b m) ≡ cell i j m
unfolding cell put
cell-put r c i j b m h = elim (Bool-cases (r == i)) [
  | inr e ↦ ap (entry j) (row_at-set_at r i _ m e)
  | inl e ↦
      let same : r ≡ i = (==_iff r i).0 e in
      let apart : (c == j) ≡ false = ground arith in
      ap (λ (k : ℕ). entry j (row_at k (put r c b m))) (sym same)
      ∙ same_row r c j b (row_at r m) m refl apart
      ∙ ap (λ (k : ℕ). entry j (row_at k m)) same
]

-- A place that is reserved and one that is not.
two_places :
    (r c i j : ℕ) (reserved : Matrix)
    → cell r c reserved ≡ false
    → cell i j reserved ≡ true
    → (r == i && c == j) ≡ false
two_places r c i j reserved h k = elim (Bool-cases (r == i && c == j)) [
  | inl e ↦
      let rows : r ≡ i = (==_iff r i).0 (and_left (r == i) (c == j) e) in
      let cols : c ≡ j = (==_iff c j).0 (and_right (r == i) (c == j) e) in
      let same = ap₂ (λ (a b : ℕ). cell a b reserved) rows cols in cc
  | inr e ↦ e
]

place_bits-reserved :
    (bytes : List ℕ) (reserved : Matrix) (ps : List (ℕ × ℕ)) (i r c : ℕ) (m : Matrix)
    → cell r c reserved ≡ true
    → cell r c (place_bits bytes reserved ps i m) ≡ cell r c m
unfolding place_bits
place_bits-reserved bytes reserved [] i r c m h = refl
place_bits-reserved bytes reserved ((a, b) ∷ ps) i r c m h = elim (Bool-cases (cell a b reserved)) [
  | inl e ↦ rw e (place_bits-reserved bytes reserved ps i r c m h)
  | inr e ↦ rw e (
      place_bits-reserved bytes reserved ps (i + 1) r c (put a b (data_bit bytes i) m) h
      ∙ cell-put a b r c (data_bit bytes i) m (two_places a b r c reserved e h))
]

mask_row-reserved :
    (id r c j : ℕ) (xs reserved : List Bool)
    → entry j reserved ≡ true
    → entry j (mask_row id r c xs reserved) ≡ entry j xs
unfolding mask_row
mask_row-reserved id r c j [] reserved h = refl
mask_row-reserved id r c j (x ∷ xs) [] h = absurd (cc)
mask_row-reserved id r c zero (x ∷ xs) (f ∷ reserved) h = rw h refl
mask_row-reserved id r c (suc j) (x ∷ xs) (f ∷ reserved) h =
    mask_row-reserved id r (c + 1) j xs reserved h

mask_rows-reserved :
    (id r i j : ℕ) (m reserved : Matrix)
    → entry j (row_at i reserved) ≡ true
    → entry j (row_at i (mask_rows id r m reserved)) ≡ entry j (row_at i m)
unfolding mask_rows
mask_rows-reserved id r i j [] reserved h = refl
mask_rows-reserved id r i j (x ∷ m) [] h = absurd (cc)
mask_rows-reserved id r zero j (x ∷ m) (f ∷ reserved) h = mask_row-reserved id r 0 j x f h
mask_rows-reserved id r (suc i) j (x ∷ m) (f ∷ reserved) h =
    mask_rows-reserved id (r + 1) i j m reserved h

apply_mask-reserved :
    (id i j : ℕ) (m reserved : Matrix)
    → cell i j reserved ≡ true
    → cell i j (apply_mask m reserved id) ≡ cell i j m
unfolding cell
apply_mask-reserved id i j m reserved h = mask_rows-reserved id 0 i j m reserved h

-- Whatever the data and the mask are, a module that is reserved stays what the finder, timing and
-- alignment patterns and the dark module have made it, until the format information is placed.
pub build_matrix-reserved :
    (v : Version) (bytes : List ℕ) (mask r c : ℕ)
    → cell r c (patterns v).reserved ≡ true
    → cell r c (apply_mask (build_matrix v bytes).m (build_matrix v bytes).reserved mask)
      ≡ cell r c (patterns v).m
unfolding build_matrix
build_matrix-reserved v bytes mask r c h =
    apply_mask-reserved mask r c _ (patterns v).reserved h
    ∙ place_bits-reserved bytes (patterns v).reserved _ 0 r c (patterns v).m h
