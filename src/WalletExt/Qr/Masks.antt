-- ===== src/WalletExt/Qr/Masks.antt =====
-- rstn-wallet/qr.js: the masks and the format information. A matrix is its rows; a row of `reserved` is
-- as long as the row of the matrix.
use resistance_network.Common.{
  ℕ, zero, suc, ◌+◌, ◌*◌, ◌/◌, ◌%◌, ◌≡◌, refl, ap₂, Bool, true, false, not, ◌&&◌, List, [], ◌∷◌,
  ◌==◌, if◌then◌else◌,
}
use Prim.Native.Nat.{bit_and, bit_or, bit_xor}

abbrev pub Matrix : Type 0
Matrix = List (List Bool)

unfoldable pub mask_fn : ℕ → ℕ → ℕ → Bool
mask_fn id r c =
    if id == 0
    then (r + c) % 2 == 0
    else if id == 1
    then r % 2 == 0
    else if id == 2
    then c % 3 == 0
    else if id == 3
    then (r + c) % 3 == 0
    else if id == 4
    then (r / 2 + c / 3) % 2 == 0
    else if id == 5
    then (r * c) % 2 + (r * c) % 3 == 0
    else if id == 6
    then ((r * c) % 2 + (r * c) % 3) % 2 == 0
    else if id == 7
    then ((r + c) % 2 + (r * c) % 3) % 2 == 0
    else false

-- One row, from a column on.
unfoldable pub mask_row : ℕ → ℕ → ℕ → List Bool → List Bool → List Bool
mask_row id r c [] reserved = []
mask_row id r c (x ∷ xs) [] = (if mask_fn id r c then not x else x) ∷ mask_row id r (c + 1) xs []
mask_row id r c (x ∷ xs) (fixed ∷ reserved) =
    (if not fixed && mask_fn id r c then not x else x) ∷ mask_row id r (c + 1) xs reserved

unfoldable pub mask_rows : ℕ → ℕ → Matrix → Matrix → Matrix
mask_rows id r [] reserved = []
mask_rows id r (row ∷ rows) [] = mask_row id r 0 row [] ∷ mask_rows id (r + 1) rows []
mask_rows id r (row ∷ rows) (fixed ∷ reserved) =
    mask_row id r 0 row fixed ∷ mask_rows id (r + 1) rows reserved

abbrev pub apply_mask : Matrix → Matrix → ℕ → Matrix
apply_mask m reserved id = mask_rows id 0 m reserved

-- `rem = (rem << 1) ^ ((rem >> 9) * 0x537)`, so many times
unfoldable pub bch_rounds : ℕ → ℕ → ℕ
bch_rounds zero rem = rem
bch_rounds (suc n) rem = bch_rounds n (bit_xor (rem * 2) (rem / 512 * 0x537))

unfoldable pub format_bits : ℕ → ℕ → ℕ
format_bits ecc_level mask =
    let format = bit_or (ecc_level * 8) mask in
    bit_xor (bit_or (format * 1024) (bit_and (bch_rounds 10 format) 0x3ff)) 0x5412

twice : (b x : Bool) → (if b then not (if b then not x else x) else (if b then not x else x)) ≡ x
twice true true = refl
twice true false = refl
twice false x = refl

mask_row-mask_row :
    (id r c : ℕ) (xs reserved : List Bool)
    → mask_row id r c (mask_row id r c xs reserved) reserved ≡ xs
unfolding mask_row
mask_row-mask_row id r c [] reserved = refl
mask_row-mask_row id r c (x ∷ xs) [] =
    ap₂ (λ (y : Bool) (ys : List Bool). y ∷ ys) (twice (mask_fn id r c) x)
      (mask_row-mask_row id r (c + 1) xs [])
mask_row-mask_row id r c (x ∷ xs) (fixed ∷ reserved) =
    ap₂ (λ (y : Bool) (ys : List Bool). y ∷ ys) (twice (not fixed && mask_fn id r c) x)
      (mask_row-mask_row id r (c + 1) xs reserved)

mask_rows-mask_rows :
    (id r : ℕ) (m reserved : Matrix) → mask_rows id r (mask_rows id r m reserved) reserved ≡ m
unfolding mask_rows
mask_rows-mask_rows id r [] reserved = refl
mask_rows-mask_rows id r (row ∷ rows) [] =
    ap₂ (λ (y : List Bool) (ys : Matrix). y ∷ ys) (mask_row-mask_row id r 0 row [])
      (mask_rows-mask_rows id (r + 1) rows [])
mask_rows-mask_rows id r (row ∷ rows) (fixed ∷ reserved) =
    ap₂ (λ (y : List Bool) (ys : Matrix). y ∷ ys) (mask_row-mask_row id r 0 row fixed)
      (mask_rows-mask_rows id (r + 1) rows reserved)

-- Masking twice changes nothing, so a reader that knows the mask finds the data again.
apply_mask-apply_mask :
    (m reserved : Matrix) (id : ℕ) → apply_mask (apply_mask m reserved id) reserved id ≡ m
apply_mask-apply_mask m reserved id = mask_rows-mask_rows id 0 m reserved
