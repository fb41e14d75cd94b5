-- ===== src/WalletExt/Page/Forwarding.antt =====
-- What the content script makes of a message.
use resistance_network.Common.{
  ◌≡◌, refl, sym, ap, ◌∙◌, Bool, true, false, ◌&&◌, [], ◌∷◌, Text, codes, text_eq, text_eq_refl,
  text_eq_sound, if◌then◌else◌, Option, none, some, Bool-cases, inl, inr, and_left, and_right,
}
use resistance_network.Json.{Json, str}
use resistance_network.WalletExt.Page.{Properties, Posted, set_property, spread, forward}

-- The value of a property.
abbrev pub property_of : Text → Properties → Option Json
property_of k [] = none
property_of k ((j, v) ∷ r) = if text_eq j k then some v else property_of k r

-- The value in the last entry of the payload with the key, or the one before it.
abbrev pub last_or : Text → Option Json → Properties → Option Json
last_or k o [] = o
last_or k o ((j, v) ∷ r) = last_or k (if text_eq j k then some v else o) r

other_key : (j k i : Text) → text_eq j k ≡ true → text_eq k i ≡ false → text_eq j i ≡ false
other_key j k i e f = ap (λ t. text_eq t i) (text_eq_sound j k e) ∙ f

apart_key : (j k i : Text) → text_eq j k ≡ false → text_eq j i ≡ true → text_eq k i ≡ false
apart_key j k i f e = elim (Bool-cases (text_eq k i)) [
  | inl g ↦
      let same : j ≡ k = text_eq_sound j i e ∙ sym (text_eq_sound k i g) in
      let eq = ap (λ t. text_eq t k) same ∙ text_eq_refl k in cc
  | inr g ↦ g
]

property_of-set_property :
    (i k : Text) (v : Json) (m : Properties)
    → property_of i (set_property k v m) ≡ (if text_eq k i then some v else property_of i m)
unfolding set_property
property_of-set_property i k v [] = refl
property_of-set_property i k v ((j, w) ∷ r) = elim (Bool-cases (text_eq j k)) [
  | inl same ↦ elim (Bool-cases (text_eq k i)) [
    | inl e ↦ rw (same, e) refl
    | inr e ↦ rw (same, e, other_key j k i same e) refl
  ]
  | inr other ↦ elim (Bool-cases (text_eq j i)) [
    | inl e ↦ rw (other, e, apart_key j k i other e) refl
    | inr e ↦ rw (other, e) (property_of-set_property i k v r)
  ]
]

property_of-spread :
    (i : Text) (payload base : Properties)
    → property_of i (spread payload base) ≡ last_or i (property_of i base) payload
unfolding spread
property_of-spread i [] base = refl
property_of-spread i ((k, v) ∷ payload) base =
    property_of-spread i payload (set_property k v base)
    ∙ ap (λ o. last_or i o payload) (property_of-set_property i k v base)

-- The service worker is sent, for each property, the last value that the payload of a message has for
-- it; this holds for the type as well, where the type that the page asked for counts only if the payload
-- has none. A message of another window or source is not passed on.
pub forward-property_of :
    (own : Bool) (m : Posted) (sent : Properties)
    → forward own m ≡ some sent
    → (own ≡ true)
      × (m.source ≡ codes "rstn-dapp")
      × ((i : Text)
          → property_of i sent
            ≡ last_or i (if text_eq (codes "type") i then some (str m.kind) else none) m.payload)
unfolding forward
forward-property_of own m sent h = elim (Bool-cases (own && text_eq m.source (codes "rstn-dapp"))) [
  | inl e ↦
      let taken : some (spread m.payload ((codes "type", str m.kind) ∷ [])) ≡ some sent =
        rw e at h in
      let same : spread m.payload ((codes "type", str m.kind) ∷ []) ≡ sent = cc in
      (
        and_left own _ e,
        text_eq_sound m.source (codes "rstn-dapp") (and_right own _ e),
        λ i. ap (property_of i) (sym same) ∙ property_of-spread i m.payload _,
      )
  | inr e ↦ let refused : none ≡ some sent = rw e at h in absurd (cc)
]
