-- ===== src/WalletExt/Qr/Generate.antt =====
-- rstn-wallet/qr.js: the bytes of a text, the penalty of a matrix and `generate`. The share of dark modules
-- is exact, where the program rounds it to a float.
pub mod Best
use resistance_network.Common.{
  ℕ, zero, suc, ◌+◌, ◌-◌, ◌*◌, ◌/◌, ◌%◌, Bool, true, false, not, ◌&&◌, ◌||◌, List, [], ◌∷◌, ◌++◌,
  Text, codes, length, map, ltb, leb, ◌==◌, if◌then◌else◌, Option, none, some, Result, ok, err,
  thrown, ◌>>=◌,
}
use resistance_network.WalletExt.Qr.{Version, choose_version}
use resistance_network.WalletExt.Qr.Correction.{encode_data}
use resistance_network.WalletExt.Qr.Masks.{Matrix, apply_mask, format_bits}
use resistance_network.WalletExt.Qr.Placement.{
  Board, size_of, range_from, entry, build_matrix, place_format,
}

-- Half of a pair of code units; the first half, and the second.
abbrev pub is_high : ℕ → Bool
is_high c = leb 0xd800 c && leb c 0xdbff

abbrev pub is_low : ℕ → Bool
is_low c = leb 0xdc00 c && leb c 0xdfff

-- `unescape(encodeURIComponent(c))` of one code unit: its UTF-8, and an URIError on half of a pair.
unfoldable pub unit_bytes : ℕ → Result (List ℕ)
unit_bytes c =
    if is_high c || is_low c
    then err (thrown (codes "URI malformed"))
    else if ltb c 0x80
    then ok (c ∷ [])
    else if ltb c 0x800
    then ok ((0xc0 + c / 64) ∷ (0x80 + c % 64) ∷ [])
    else ok ((0xe0 + c / 4096) ∷ (0x80 + c / 64 % 64) ∷ (0x80 + c % 64) ∷ [])

-- The bytes of `encodeData`: each code unit for itself.
unfoldable pub text_bytes : Text → Result (List ℕ)
text_bytes [] = ok []
text_bytes (c ∷ s) = unit_bytes c >>= λ bs. text_bytes s >>= λ rest. ok (bs ++ rest)

abbrev pub add_length : ℕ → Result ℕ → Result ℕ
add_length n r = r >>= λ k. ok (n + k)

-- `unescape(encodeURIComponent(text)).length`: a pair counts four bytes.
unfoldable pub utf8_length : Text → Result ℕ
utf8_length [] = ok 0
utf8_length (c ∷ []) = unit_bytes c >>= λ bs. ok (length bs)
utf8_length (c ∷ d ∷ s) =
    let pair = utf8_length s in
    let rest = utf8_length (d ∷ s) in
    if is_high c && is_low d
    then add_length 4 pair
    else unit_bytes c >>= λ bs. add_length (length bs) rest

abbrev pub same : Bool → Bool → Bool
same true b = b
same false b = not b

-- A run of five modules or more.
abbrev pub run_score : ℕ → ℕ
run_score run = if leb 5 run then 3 + (run - 5) else 0

-- The runs of a line, behind one module.
unfoldable pub runs_from : Bool → ℕ → List Bool → ℕ
runs_from prev run [] = run_score run
runs_from prev run (x ∷ xs) =
    (if same x prev then 0 else run_score run) + runs_from x (if same x prev then run + 1 else 1) xs

abbrev pub line_runs : List Bool → ℕ
line_runs [] = 0
line_runs (x ∷ xs) = runs_from x 1 xs

-- The blocks of two lines beside each other.
unfoldable pub line_blocks : List Bool → List Bool → ℕ
line_blocks (a ∷ b ∷ xs) (c ∷ d ∷ ys) =
    (if same a b && same a c && same a d then 3 else 0) + line_blocks (b ∷ xs) (d ∷ ys)
line_blocks _ _ = 0

unfoldable pub blocks : Matrix → ℕ
blocks (r ∷ s ∷ m) = line_blocks r s + blocks (s ∷ m)
blocks _ = 0

abbrev pub pattern_bits : List Bool
pattern_bits = true ∷ false ∷ true ∷ true ∷ true ∷ false ∷ true ∷ []

abbrev pub begins : List Bool → List Bool → Bool
begins [] xs = true
begins (p ∷ ps) [] = false
begins (p ∷ ps) (x ∷ xs) = same p x && begins ps xs

unfoldable pub line_patterns : List Bool → ℕ
line_patterns [] = 0
line_patterns (x ∷ xs) = (if begins pattern_bits (x ∷ xs) then 40 else 0) + line_patterns xs

abbrev pub sum_of {ℓ} : {A : Type ℓ} → (A → ℕ) → List A → ℕ
sum_of f [] = 0
sum_of f (x ∷ xs) = f x + sum_of f xs

abbrev pub dark_in : List Bool → ℕ
dark_in row = sum_of (λ (b : Bool). if b then 1 else 0) row

-- The distance of two numbers.
abbrev pub distance : ℕ → ℕ → ℕ
distance a b = (a - b) + (b - a)

-- `10 * Math.floor(Math.abs(dark * 100 / (size * size) - 50) / 5)`, of at least one module
abbrev pub balance : ℕ → ℕ → ℕ
balance zero dark = 0
balance (suc n) dark = 10 * (distance (dark * 100) (50 * suc n) / (5 * suc n))

unfoldable pub penalty : Matrix → ℕ
penalty m =
    let size = length m in
    let columns = map (λ c. map (λ row. entry c row) m) (range_from 0 size) in
    sum_of line_runs m
    + sum_of line_runs columns
    + blocks m
    + sum_of line_patterns m
    + sum_of line_patterns columns
    + balance (size * size) (sum_of dark_in m)

-- The matrix of a mask.
unfoldable pub candidate : Version → Board → ℕ → Matrix
candidate v b mask = place_format (apply_mask b.m b.reserved mask) (size_of v) (format_bits 0 mask)

-- The best one so far: its penalty, its mask and its matrix.
abbrev pub Best : Type 0
Best = Option (ℕ × (ℕ × Matrix))

unfoldable pub better : ℕ → ℕ → Matrix → Best → Best
better p mask m none = some (p, (mask, m))
better p mask m (some (q, old)) = if ltb p q then some (p, (mask, m)) else some (q, old)

unfoldable pub try_masks : (ℕ → Matrix) → (Matrix → ℕ) → List ℕ → Best → Best
try_masks make score [] best = best
try_masks make score (mask ∷ masks) best =
    try_masks make score masks (better (score (make mask)) mask (make mask) best)

abbrev pub matrix_of : Best → Matrix
matrix_of none = []
matrix_of (some (p, (mask, m))) = m

unfoldable pub draw : Version → List ℕ → ℕ × Matrix
draw v bytes =
    let b = build_matrix v (encode_data bytes v) in
    (size_of v, matrix_of (try_masks (candidate v b) penalty (range_from 0 8) none))

unfoldable pub generate : Text → Result (ℕ × Matrix)
generate text = utf8_length text >>= λ n.
    choose_version n >>= λ v. text_bytes text >>= λ bytes. ok (draw v bytes)
