-- ===== src/Common/Trim.antt =====
-- `trim` leaves a text alone that has no white space.
use Prim.Native.Nat.{ℕ}
use mathlib.Core.Path.{◌≡◌, refl, sym, ap, ◌∙◌}
use mathlib.Core.Bool.{true, false}
use mathlib.Core.List.{[], ◌∷◌, ◌++◌, reverse, reverse-append, reverse_aux, reverse-reverse}
use mathlib.Core.Logic.{inl, inr}
use resistance_network.Common.Tests.{Bool-cases}
use resistance_network.Common.Lists.{All}
use resistance_network.Common.Strings.{Text, is_space, trim_start, trim}

-- A character that is no white space.
abbrev pub IsSolid : ℕ → Type 0
IsSolid c = is_space c ≡ false

module _ (P : ℕ → Type 0) where
  All-reverse_aux : (xs ys : Text) → All P xs → All P ys → All P (reverse_aux xs ys)
  All-reverse_aux [] ys h k = k
  All-reverse_aux (x ∷ xs) ys (p, h) k = All-reverse_aux xs (x ∷ ys) h (p, k)

  All-reverse : (xs : Text) → All P xs → All P (reverse xs)
  All-reverse xs h = All-reverse_aux xs [] h tt

trim_start_of_solid : (s : Text) → All IsSolid s → trim_start s ≡ s
unfolding trim_start
trim_start_of_solid [] h = refl
trim_start_of_solid (c ∷ s) h = rw h.0

pub trim_of_solid : (s : Text) → All IsSolid s → trim s ≡ s
unfolding trim
trim_of_solid s h =
    rw (trim_start_of_solid s h, trim_start_of_solid (reverse s) (All-reverse IsSolid s h))
      (reverse-reverse s)

abbrev pub IsBlank : ℕ → Type 0
IsBlank c = is_space c ≡ true

-- What `trim_start` takes away is white space.
trim_start_split : (s : Text) → (pre : Text) × All IsBlank pre × (s ≡ pre ++ trim_start s)
unfolding trim_start
trim_start_split [] = ([], tt, refl)
trim_start_split (c ∷ s) = elim (Bool-cases (is_space c)) [
  | inl blank ↦
      let (pre, blanks, e) = trim_start_split s in
      (c ∷ pre, (blank, blanks), rw blank (ap (λ (t : Text). c ∷ t) e))
  | inr solid ↦ ([], tt, rw solid)
]

-- So is what `trim` takes away behind.
pub trim_split : (s : Text) → (w : Text) × All IsBlank w × (trim_start s ≡ trim s ++ w)
unfolding trim
trim_split s =
    let u = trim_start s in
    let (pre, blanks, e) = trim_start_split (reverse u) in
    (
      reverse pre,
      All-reverse IsBlank pre blanks,
      sym (reverse-reverse u) ∙ ap reverse e ∙ reverse-append pre (trim_start (reverse u)),
    )
