-- ===== src/WalletExt/Confirm/Escaping.antt =====
-- Escaped texts hold no markup, and show what was escaped.
use resistance_network.Common.{
  ℕ, ◌≡◌, refl, sym, ap, subst, ◌∙◌, false, ◌||◌, [], ◌∷◌, ◌++◌, append_assoc, append-nil, Text,
  codes, text_eq, ◌==◌, if◌then◌else◌, Option, none, some, arith, All, All-append, Bool-cases, inl,
  inr, ==_iff, either_way, take, zero, suc,
}
use resistance_network.WalletExt.Confirm.{
  replace_all, esc, Meta, Detail, message_shown, render_detail,
}

replace_all-append :
    (c : ℕ) (by s t : Text) → replace_all c by (s ++ t) ≡ replace_all c by s ++ replace_all c by t
unfolding replace_all
replace_all-append c by [] t = refl
replace_all-append c by (x ∷ s) t = elim (Bool-cases (x == c)) [
  | inl e ↦ rw e (
      ap (λ (u : Text). by ++ u) (replace_all-append c by s t)
      ∙ sym (append_assoc by (replace_all c by s) (replace_all c by t)))
  | inr e ↦ rw e (ap (λ (u : Text). x ∷ u) (replace_all-append c by s t))
]

-- What one character is escaped as.
unfoldable pub entity : ℕ → Text
entity x =
    if x == b'&'
    then codes "&amp;"
    else if x == b'<'
    then codes "&lt;"
    else if x == b'>'
    then codes "&gt;"
    else if x == b'"'
    then codes "&quot;"
    else if x == b'\''
    then codes "&#39;"
    else x ∷ []

replace_all_one :
    (c x : ℕ) (by : Text) → replace_all c by (x ∷ []) ≡ (if x == c then by else x ∷ [])
unfolding replace_all
replace_all_one c x by = elim (Bool-cases (x == c)) [
  | inl e ↦ rw e (append-nil by)
  | inr e ↦ rw e refl
]

esc_one : (x : ℕ) → esc (x ∷ []) ≡ entity x
unfolding esc entity replace_all
esc_one x = elim (Bool-cases (x == b'&')) [
  | inl e ↦ rw e refl
  | inr e ↦ elim (Bool-cases (x == b'<')) [
    | inl f ↦ rw (e, f) refl
    | inr f ↦ elim (Bool-cases (x == b'>')) [
      | inl g ↦ rw (e, f, g) refl
      | inr g ↦ elim (Bool-cases (x == b'"')) [
        | inl h ↦ rw (e, f, g, h) refl
        | inr h ↦ elim (Bool-cases (x == b'\'')) [
          | inl k ↦ rw (e, f, g, h, k) refl
          | inr k ↦ rw (e, f, g, h, k) refl
        ]
      ]
    ]
  ]
]

esc-append : (s t : Text) → esc (s ++ t) ≡ esc s ++ esc t
unfolding esc
esc-append s t =
    ap
      (λ u. replace_all b'\'' (codes "&#39;") (
        replace_all b'"' (codes "&quot;")
          (replace_all b'>' (codes "&gt;") (replace_all b'<' (codes "&lt;") u))))
      (replace_all-append b'&' (codes "&amp;") s t)
    ∙ ap
        (λ u.
          replace_all b'\'' (codes "&#39;")
            (replace_all b'"' (codes "&quot;") (replace_all b'>' (codes "&gt;") u)))
        (replace_all-append b'<' (codes "&lt;") _ _)
    ∙ ap (λ u. replace_all b'\'' (codes "&#39;") (replace_all b'"' (codes "&quot;") u))
        (replace_all-append b'>' (codes "&gt;") _ _)
    ∙ ap (replace_all b'\'' (codes "&#39;")) (replace_all-append b'"' (codes "&quot;") _ _)
    ∙ replace_all-append b'\'' (codes "&#39;") _ _

esc-cons : (x : ℕ) (s : Text) → esc (x ∷ s) ≡ entity x ++ esc s
esc-cons x s = esc-append (x ∷ []) s ∙ ap (λ (t : Text). t ++ esc s) (esc_one x)

-- A character that neither opens a tag nor ends a value.
abbrev pub IsInert : ℕ → Type 0
IsInert x = ((x == b'<') || (x == b'>') || (x == b'"') || (x == b'\'')) ≡ false

plain :
    (x : ℕ)
    → (x == b'<') ≡ false
    → (x == b'>') ≡ false
    → (x == b'"') ≡ false
    → (x == b'\'') ≡ false
    → IsInert x
plain x f g h k = ground arith

entity-IsInert : (x : ℕ) → All IsInert (entity x)
unfolding entity
entity-IsInert x = elim (Bool-cases (x == b'&')) [
  | inl e ↦ rw e (refl, (refl, (refl, (refl, (refl, tt)))))
  | inr e ↦ elim (Bool-cases (x == b'<')) [
    | inl f ↦ rw (e, f) (refl, (refl, (refl, (refl, tt))))
    | inr f ↦ elim (Bool-cases (x == b'>')) [
      | inl g ↦ rw (e, f, g) (refl, (refl, (refl, (refl, tt))))
      | inr g ↦ elim (Bool-cases (x == b'"')) [
        | inl h ↦ rw (e, f, g, h) (refl, (refl, (refl, (refl, (refl, (refl, tt))))))
        | inr h ↦ elim (Bool-cases (x == b'\'')) [
          | inl k ↦ rw (e, f, g, h, k) (refl, (refl, (refl, (refl, (refl, tt)))))
          | inr k ↦ rw (e, f, g, h, k) (plain x f g h k, tt)
        ]
      ]
    ]
  ]
]

esc-IsInert : (s : Text) → All IsInert (esc s)
esc-IsInert [] = unfold esc in unfold replace_all in tt
esc-IsInert (x ∷ s) =
    subst (All IsInert) (sym (esc-cons x s))
      (All-append IsInert (entity x) (esc s) (entity-IsInert x) (esc-IsInert s))

-- How a page reads a text: the character of a reference, by its name, and all others as they are. The name
-- so far is kept behind a `&`.
abbrev pub named : Text → Text
named n =
    if text_eq n (codes "amp")
    then codes "&"
    else if text_eq n (codes "lt")
    then codes "<"
    else if text_eq n (codes "gt")
    then codes ">"
    else if text_eq n (codes "quot")
    then codes "\""
    else if text_eq n (codes "#39")
    then codes "'"
    else codes "&" ++ (n ++ codes ";")

unfoldable pub read_html : Option Text → Text → Text
read_html none [] = []
read_html (some n) [] = codes "&" ++ n
read_html none (x ∷ s) =
    let inside = read_html (some []) s in
    let rest = read_html none s in if x == b'&' then inside else x ∷ rest
read_html (some n) (x ∷ s) =
    let ended = read_html none s in
    let longer = read_html (some (n ++ x ∷ [])) s in if x == b';' then named n ++ ended else longer

read_html-entity : (x : ℕ) (s : Text) → read_html none (entity x ++ s) ≡ x ∷ read_html none s
unfolding entity read_html
read_html-entity x s = elim (Bool-cases (x == b'&')) [
  | inl e ↦ rw e (ap (λ (k : ℕ). k ∷ read_html none s) (sym ((==_iff x b'&').0 e)))
  | inr e ↦ elim (Bool-cases (x == b'<')) [
    | inl f ↦ rw (e, f) (ap (λ (k : ℕ). k ∷ read_html none s) (sym ((==_iff x b'<').0 f)))
    | inr f ↦ elim (Bool-cases (x == b'>')) [
      | inl g ↦ rw (e, f, g) (ap (λ (k : ℕ). k ∷ read_html none s) (sym ((==_iff x b'>').0 g)))
      | inr g ↦ elim (Bool-cases (x == b'"')) [
        | inl h ↦ rw (e, f, g, h) (ap (λ (k : ℕ). k ∷ read_html none s) (sym ((==_iff x b'"').0 h)))
        | inr h ↦ elim (Bool-cases (x == b'\'')) [
          | inl k ↦
              rw (e, f, g, h, k) (ap (λ (k : ℕ). k ∷ read_html none s) (sym ((==_iff x b'\'').0 k)))
          | inr k ↦ rw (e, f, g, h, k, e) refl
        ]
      ]
    ]
  ]
]

-- A text that the extension escapes opens no tag and ends no attribute, and is read as the text itself.
pub esc-read_html : (s : Text) → All IsInert (esc s) × (read_html none (esc s) ≡ s)
esc-read_html s = (esc-IsInert s, read s)
  where
    read : (t : Text) → read_html none (esc t) ≡ t
    read [] = unfold esc in unfold replace_all in unfold read_html in refl
    read (x ∷ t) =
        ap (read_html none) (esc-cons x t)
        ∙ read_html-entity x (esc t)
        ∙ ap (λ (u : Text). x ∷ u) (read t)

All-take : (n : ℕ) (s : Text) → All IsInert s → All IsInert (take n s)
All-take zero s h = tt
All-take (suc n) [] h = tt
All-take (suc n) (x ∷ s) (h, k) = (h, All-take n s k)

-- Whatever a page asks for, no text of it that the window shows for confirmation opens a tag or ends an
-- attribute.
pub render_detail-IsInert :
    (req_type meta : Text) (parsed : Option Meta)
    → All (All IsInert) (render_detail req_type meta parsed).shown
unfolding render_detail
render_detail-IsInert req_type meta parsed =
    let Q = λ (d : Detail). All (All IsInert) d.shown in
    either_way Q (text_eq req_type (codes "DAPP_CONNECT")) _ _ (λ h. tt)
      λ _.
        either_way Q (text_eq req_type (codes "DAPP_GET_BALANCE")) _ _ (λ h. tt)
          λ _.
            either_way Q (text_eq req_type (codes "DAPP_SIGN")) _ _
              (λ h. (All-take 500 _ (esc-IsInert (message_shown meta parsed)), tt))
              λ _.
                either_way Q (text_eq req_type (codes "DAPP_SEND_TX")) _ _
                  (λ h. (esc-IsInert _, (All-take 60 _ (esc-IsInert _), (esc-IsInert _, tt))))
                  (λ h. tt)
