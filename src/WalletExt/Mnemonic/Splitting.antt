-- ===== src/WalletExt/Mnemonic/Splitting.antt =====
-- Words that are joined and split again.
use resistance_network.Common.{
  ℕ, ◌≡◌, refl, sym, ap, ap₂, ◌∙◌, Bool, true, false, ◌&&◌, List, [], ◌∷◌, ◌++◌, all, keep, Text,
  is_space, ltb, trim_start, trim, arith, append-nil,
}
use mathlib.Core.List.{reverse, reverse-append, reverse-reverse}
use resistance_network.WalletExt.Mnemonic.{join_words, put, split_space, non_empty, words_of}

abbrev pub is_letter : ℕ → Bool
is_letter c = ltb 96 c && ltb c 123

-- A word: letters, at least one.
abbrev pub is_word : Text → Bool
is_word [] = false
is_word (c ∷ w) = all is_letter (c ∷ w)

letter_solid : (c : ℕ) → is_letter c ≡ true → is_space c ≡ false
letter_solid c h = ground arith

put_all : Text → List Text → List Text
put_all [] ws = ws
put_all (c ∷ w) ws = put c (put_all w ws)

split_space-letters :
    (w s : Text)
    → all is_letter w ≡ true
    → split_space false (w ++ s) ≡ put_all w (split_space false s)
unfolding split_space put_all
split_space-letters [] s h = refl
split_space-letters (c ∷ w) s h =
    rw (letter_solid c (ground arith)) (ap (put c) (split_space-letters w s (ground arith)))

put_all-cons : (w v : Text) (ws : List Text) → put_all w (v ∷ ws) ≡ (w ++ v) ∷ ws
unfolding put_all
put_all-cons [] v ws = refl
put_all-cons (c ∷ w) v ws = rw (put_all-cons w v ws) refl

-- Behind white space, a letter begins the next piece.
split_space-gap :
    (c : ℕ) (s : Text) → is_letter c ≡ true → split_space true (c ∷ s) ≡ split_space false (c ∷ s)
unfolding split_space
split_space-gap c s h = rw (letter_solid c h) refl

split_space-space : (s : Text) → split_space false (b' ' ∷ s) ≡ [] ∷ split_space true s
unfolding split_space
split_space-space s = refl

split_space-nil : split_space false [] ≡ [] ∷ []
unfolding split_space
split_space-nil = refl

pub letters_of : (w : Text) → is_word w ≡ true → all is_letter w ≡ true
letters_of [] h = cc
letters_of (c ∷ w) h = h

split_space-join_gap :
    (w : Text) (ws : List Text)
    → is_word w ≡ true
    → split_space true (join_words (w ∷ ws)) ≡ split_space false (join_words (w ∷ ws))
split_space-join_gap [] ws h = absurd (cc h)
split_space-join_gap (c ∷ w) [] h = split_space-gap c w (ground arith)
split_space-join_gap (c ∷ w) (v ∷ ws) h = split_space-gap c _ (ground arith)

split_space-join_words :
    (w : Text) (ws : List Text)
    → all is_word (w ∷ ws) ≡ true
    → split_space false (join_words (w ∷ ws)) ≡ w ∷ ws
split_space-join_words w [] h =
    ap (split_space false) (sym (append-nil w))
    ∙ split_space-letters w [] (letters_of w (ground arith))
    ∙ ap (put_all w) split_space-nil
    ∙ put_all-cons w [] []
    ∙ ap (λ t. t ∷ []) (append-nil w)
split_space-join_words w (v ∷ ws) h =
    split_space-letters w _ (letters_of w (ground arith))
    ∙ ap (put_all w) (split_space-space (join_words (v ∷ ws)))
    ∙ put_all-cons w [] _
    ∙ ap₂ (λ (t : Text) (ts : List Text). t ∷ ts) (append-nil w)
        (split_space-join_gap v ws (ground arith) ∙ split_space-join_words v ws (ground arith))

-- The last letter of a word, and of words that are joined.
EndsSolid : Text → Type 0
EndsSolid s = (u : Text) × (d : ℕ) × (is_space d ≡ false) × (s ≡ u ++ d ∷ [])

cons-EndsSolid : (c : ℕ) (s : Text) → EndsSolid s → EndsSolid (c ∷ s)
unfolding EndsSolid
cons-EndsSolid c s (u, d, solid, e) = (c ∷ u, d, solid, ap (λ t. c ∷ t) e)

word-EndsSolid : (w : Text) → is_word w ≡ true → EndsSolid w
unfolding EndsSolid
word-EndsSolid [] h = absurd (cc h)
word-EndsSolid (c ∷ []) h = ([], c, letter_solid c (ground arith), refl)
word-EndsSolid (c ∷ d ∷ w) h = cons-EndsSolid c (d ∷ w) (word-EndsSolid (d ∷ w) (ground arith))

append-EndsSolid : (w s : Text) → EndsSolid s → EndsSolid (w ++ s)
append-EndsSolid [] s h = h
append-EndsSolid (c ∷ w) s h = cons-EndsSolid c (w ++ s) (append-EndsSolid w s h)

join_words-EndsSolid :
    (w : Text) (ws : List Text) → all is_word (w ∷ ws) ≡ true → EndsSolid (join_words (w ∷ ws))
join_words-EndsSolid w [] h = word-EndsSolid w (ground arith)
join_words-EndsSolid w (v ∷ ws) h =
    append-EndsSolid w _ (cons-EndsSolid b' ' _ (join_words-EndsSolid v ws (ground arith)))

trim_start-solid : (c : ℕ) (s : Text) → is_space c ≡ false → trim_start (c ∷ s) ≡ c ∷ s
unfolding trim_start
trim_start-solid c s h = rw h refl

trim_ends : (c : ℕ) (s : Text) → is_space c ≡ false → EndsSolid (c ∷ s) → trim (c ∷ s) ≡ c ∷ s
unfolding trim EndsSolid
trim_ends c s h (u, d, solid, e) =
    let back : reverse (c ∷ s) ≡ d ∷ reverse u = ap reverse e ∙ reverse-append u (d ∷ []) in
    ap (λ t. reverse (trim_start (reverse t))) (trim_start-solid c s h)
    ∙ ap (λ t. reverse (trim_start t)) back
    ∙ ap reverse (trim_start-solid d (reverse u) solid ∙ sym back)
    ∙ reverse-reverse (c ∷ s)

trim-join_words :
    (w : Text) (ws : List Text)
    → all is_word (w ∷ ws) ≡ true
    → trim (join_words (w ∷ ws)) ≡ join_words (w ∷ ws)
trim-join_words [] ws h = absurd (ground arith)
trim-join_words (c ∷ w) [] h =
    trim_ends c w (letter_solid c (ground arith)) (join_words-EndsSolid (c ∷ w) [] h)
trim-join_words (c ∷ w) (v ∷ ws) h =
    trim_ends c _ (letter_solid c (ground arith)) (join_words-EndsSolid (c ∷ w) (v ∷ ws) h)

keep-words : (ws : List Text) → all is_word ws ≡ true → keep non_empty ws ≡ ws
keep-words [] h = refl
keep-words ([] ∷ ws) h = cc
keep-words ((c ∷ w) ∷ ws) h = ap (λ ts. (c ∷ w) ∷ ts) (keep-words ws (ground arith))

pub words_of-join_words :
    (w : Text) (ws : List Text)
    → all is_word (w ∷ ws) ≡ true
    → words_of (join_words (w ∷ ws)) ≡ w ∷ ws
unfolding words_of
words_of-join_words w ws h =
    ap (λ s. keep non_empty (split_space false s)) (trim-join_words w ws h)
    ∙ ap (keep non_empty) (split_space-join_words w ws h)
    ∙ keep-words (w ∷ ws) h
