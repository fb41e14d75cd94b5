-- ===== src/Views/Explorer/Blanks.antt =====
-- White space in a search of src/components/views/ExplorerView.tsx.
use resistance_network.Common.{
  ◌≡◌, refl, ap, ◌∙◌, Bool, true, false, ◌||◌, ◌==◌, ==_iff, List, [], ◌∷◌, Text, starts_with, trim,
  keep, All, Bool-cases, inl, inr, is_space,
}
use resistance_network.Common.Trim.{IsSolid}
use resistance_network.Views.Number.{is_empty}
use resistance_network.Views.Explorer.{includes, some_includes, filtered}

abbrev pub has_blank : Text → Bool
has_blank [] = false
has_blank (c ∷ s) = is_space c || has_blank s

starts_with-has_blank : (q s : Text) → has_blank q ≡ true → All IsSolid s → starts_with q s ≡ false
starts_with-has_blank [] s h k = absurd (cc)
starts_with-has_blank (p ∷ q) [] h k = refl
starts_with-has_blank (p ∷ q) (c ∷ s) h (solid, k) = elim (Bool-cases (p == c)) [
  | inr e ↦ rw e refl
  | inl e ↦
      let same : is_space p ≡ false = ap is_space ((==_iff p c).0 e) ∙ solid in
      let later : has_blank q ≡ true = rw same at h in rw e (starts_with-has_blank q s later k)
]

includes-has_blank : (q s : Text) → has_blank q ≡ true → All IsSolid s → includes q s ≡ false
unfolding includes
includes-has_blank [] s h k = absurd (cc)
includes-has_blank (p ∷ q) [] h k = refl
includes-has_blank (p ∷ q) (c ∷ s) h (solid, k) =
    rw (starts_with-has_blank (p ∷ q) (c ∷ s) h (solid, k)) (includes-has_blank (p ∷ q) s h k)

some_includes-has_blank :
    (q : Text) (ss : List Text)
    → has_blank q ≡ true
    → All (All IsSolid) ss
    → some_includes q ss ≡ false
unfolding some_includes
some_includes-has_blank q [] h k = refl
some_includes-has_blank q (s ∷ ss) h (solid, k) =
    rw (includes-has_blank q s h solid) (some_includes-has_blank q ss h k)

keep_none {ℓ} :
    {A : Type ℓ} (p : A → Bool) (xs : List A) → All (λ x. p x ≡ false) xs → keep p xs ≡ []
keep_none p [] h = refl
keep_none p (x ∷ xs) (h, k) = rw h (keep_none p xs k)

-- A query that holds more than white space, but some of it, finds nothing among entries whose texts hold
-- none: the white space at the ends of a query is not taken away.
filtered-has_blank {ℓ} :
    {A : Type ℓ} (lower : Text → Text) (texts : A → List Text) (query : Text) (xs : List A)
    → is_empty (trim query) ≡ false
    → has_blank (lower query) ≡ true
    → All (λ x. All (All IsSolid) (texts x)) xs
    → filtered lower texts query xs ≡ []
unfolding filtered
filtered-has_blank {A = A} lower texts query xs h blank solid =
    rw h (keep_none _ xs (none_of xs solid))
  where
    none_of :
        (ys : List A)
        → All (λ x. All (All IsSolid) (texts x)) ys
        → All (λ x. some_includes (lower query) (texts x) ≡ false) ys
    none_of [] k = tt
    none_of (y ∷ ys) (k, ks) =
        (some_includes-has_blank (lower query) (texts y) blank k, none_of ys ks)
