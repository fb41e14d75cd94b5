-- ===== src/WalletExt/Qr/Generate/Best.antt =====
-- Which mask a QR code gets, and which texts have none.
use resistance_network.Common.{
  ℕ, zero, suc, ◌+◌, ◌≤◌, ◌<◌, ◌≡◌, refl, Bool, true, false, ◌||◌, List, [], ◌∷◌, Text, codes, ltb,
  if◌then◌else◌, none, some, Result, ok, err, thrown, ◌>>=◌, arith, ltb→lt, Bool-cases, inl, inr,
  All, Error, subst,
}
use resistance_network.WalletExt.Qr.Masks.{Matrix}
use resistance_network.WalletExt.Qr.{Version, choose_version}
use resistance_network.WalletExt.Qr.Correction.{encode_data}
use resistance_network.WalletExt.Qr.Placement.{build_matrix, range_from}
use resistance_network.WalletExt.Qr.Generate.{
  Best, better, try_masks, matrix_of, candidate, penalty, is_high, is_low, unit_bytes, text_bytes,
  utf8_length, draw, generate,
}

-- The best one has the penalty that it is kept with, the matrix of its mask, and a penalty that is at
-- most this one.
abbrev Kept : (ℕ → Matrix) → (Matrix → ℕ) → Best → Type 0
Kept make score none = Unit {0}
Kept make score (some (p, (mask, m))) = (m ≡ make mask) × (p ≡ score m) × (mask < 8)

abbrev AtMost : ℕ → Best → Type 0
AtMost n none = ⊥
AtMost n (some (p, r)) = p ≤ n

module _ (make : ℕ → Matrix) (score : Matrix → ℕ) where
  better-Kept :
      (mask : ℕ) (best : Best)
      → mask < 8
      → Kept make score best
      → Kept make score (better (score (make mask)) mask (make mask) best)
  unfolding better
  better-Kept mask none l k = (refl, refl, l)
  better-Kept mask (some (q, (old, m))) l k = elim (Bool-cases (ltb (score (make mask)) q)) [
    | inl e ↦ rw e (refl, refl, l)
    | inr e ↦ rw e k
  ]

  better-AtMost :
      (mask n : ℕ) (best : Best)
      → AtMost n best
      → AtMost n (better (score (make mask)) mask (make mask) best)
  unfolding better
  better-AtMost mask n none k = elim k [ ]
  better-AtMost mask n (some (q, (old, m))) k = elim (Bool-cases (ltb (score (make mask)) q)) [
    | inl e ↦ rw e (let l = ltb→lt _ _ e in omega arith)
    | inr e ↦ rw e k
  ]

  better_self :
      (mask : ℕ) (best : Best)
      → AtMost (score (make mask)) (better (score (make mask)) mask (make mask) best)
  unfolding better
  better_self mask none = omega arith
  better_self mask (some (q, (old, m))) = elim (Bool-cases (ltb (score (make mask)) q)) [
    | inl e ↦ rw e (omega arith)
    | inr e ↦ rw e (ground arith)
  ]

  try_masks-Kept :
      (masks : List ℕ) (best : Best)
      → All (λ (k : ℕ). k < 8) masks
      → Kept make score best
      → Kept make score (try_masks make score masks best)
  unfolding try_masks
  try_masks-Kept [] best ls k = k
  try_masks-Kept (mask ∷ masks) best (l, ls) k =
      try_masks-Kept masks _ ls (better-Kept mask best l k)

  try_masks-AtMost :
      (masks : List ℕ) (n : ℕ) (best : Best)
      → AtMost n best
      → AtMost n (try_masks make score masks best)
  unfolding try_masks
  try_masks-AtMost [] n best k = k
  try_masks-AtMost (mask ∷ masks) n best k =
      try_masks-AtMost masks n _ (better-AtMost mask n best k)

  try_masks_least :
      (count from i : ℕ) (best : Best)
      → i < count
      → AtMost (score (make (from + i))) (try_masks make score (range_from from count) best)
  unfolding try_masks
  try_masks_least zero from i best h = absurd (omega arith)
  try_masks_least (suc count) from zero best h =
      subst
        (λ (k : ℕ). AtMost (score (make k)) (
          try_masks make score (range_from (from + 1) count)
            (better (score (make from)) from (make from) best)))
        (omega arith) (try_masks-AtMost (range_from (from + 1) count) _ _ (better_self from best))
  try_masks_least (suc count) from (suc i) best h =
      subst
        (λ (k : ℕ). AtMost (score (make k)) (
          try_masks make score (range_from (from + 1) count)
            (better (score (make from)) from (make from) best)))
        (omega arith) (try_masks_least count (from + 1) i _ (omega arith))

  least_of_eight :
      (i : ℕ) → i < 8 → AtMost (score (make i)) (try_masks make score (range_from 0 8) none)
  least_of_eight i h =
      subst (λ (k : ℕ). AtMost (score (make k)) (try_masks make score (range_from 0 8) none))
        (omega arith) (try_masks_least 8 0 i none h)

  best_matrix :
      (best : Best) (n : ℕ)
      → Kept make score best
      → AtMost n best
      → (score (matrix_of best) ≤ n) × (k : ℕ) × (k < 8) × (matrix_of best ≡ make k)
  best_matrix none n k l = elim l [ ]
  best_matrix (some (p, (mask, m))) n (same, scored, small) l = (omega arith, mask, small, same)

-- The matrix that is drawn is that of one of the eight masks, and none of the others has a smaller
-- penalty.
draw-penalty :
    (v : Version) (bytes : List ℕ) (mask : ℕ)
    → mask < 8
    → (penalty (draw v bytes).1 ≤ penalty (candidate v (build_matrix v (encode_data bytes v)) mask))
      × (k : ℕ) × (k < 8)
      × ((draw v bytes).1 ≡ candidate v (build_matrix v (encode_data bytes v)) k)
unfolding draw
draw-penalty v bytes mask h =
    let make = candidate v (build_matrix v (encode_data bytes v)) in
    best_matrix make penalty (try_masks make penalty (range_from 0 8) none) (penalty (make mask))
      (try_masks-Kept make penalty (range_from 0 8) none below tt)
      (least_of_eight make penalty mask h)
  where
    below : All (λ (k : ℕ). k < 8) (range_from 0 8)
    below = omega arith

-- Half of a pair of code units, somewhere in a text.
abbrev pub has_half : Text → Bool
has_half [] = false
has_half (c ∷ s) = if is_high c || is_low c then true else has_half s

abbrev Fails {ℓ} : {A : Type ℓ} → Result A → Type ℓ
Fails {A = A} r = (e : Error) × (r ≡ err e)

then-Fails {ℓ κ} :
    {A : Type ℓ} {B : Type κ} (r : Result A) (f : A → Result B)
    → ((a : A) → Fails (f a))
    → Fails (r >>= f)
then-Fails (err e) f h = (e, refl)
then-Fails (ok a) f h = h a

first-Fails {ℓ κ} :
    {A : Type ℓ} {B : Type κ} (r : Result A) (f : A → Result B) → Fails r → Fails (r >>= f)
first-Fails r f (e, h) = (e, rw h refl)

text_bytes-Fails : (s : Text) → has_half s ≡ true → Fails (text_bytes s)
unfolding text_bytes
text_bytes-Fails [] h = absurd (cc)
text_bytes-Fails (c ∷ s) h = elim (Bool-cases (is_high c || is_low c)) [
  | inl e ↦
      first-Fails (unit_bytes c) _
        (unfold unit_bytes in (thrown (codes "URI malformed"), rw e refl))
  | inr e ↦
      then-Fails (unit_bytes c) _
        (λ bs. first-Fails (text_bytes s) _ (text_bytes-Fails s (rw e at h)))
]

-- No text gets a QR code in which a character is a pair of code units, or half of one.
generate-has_half : (text : Text) → has_half text ≡ true → (e : Error) × (generate text ≡ err e)
unfolding generate
generate-has_half text h = then-Fails (utf8_length text) _ (λ n.
    then-Fails (choose_version n) _
      (λ v. first-Fails (text_bytes text) _ (text_bytes-Fails text h)))
