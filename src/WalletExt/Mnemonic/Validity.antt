-- ===== src/WalletExt/Mnemonic/Validity.antt =====
-- A phrase that was generated is one that is accepted.
use resistance_network.Common.{
  ℕ, zero, suc, ◌%◌, ◌<◌, ◌≡◌, refl, ap, ap₂, ◌∙◌, Bool, true, ◌||◌, List, [], ◌∷◌, map, all, All,
  all-append, length, length-map, Text, String, codes, text_eq_refl, ◌==◌, either_way, arith,
}
use resistance_network.Adapter.Signing.{lower_case}
use resistance_network.WalletExt.Platform.{Platform, LowersAscii}
use resistance_network.WalletExt.Mnemonic.{
  wordlist, at, join_words, count_of, generate_mnemonic, known, words_of, fits_count,
  is_valid_mnemonic,
}
use resistance_network.WalletExt.Mnemonic.Splitting.{
  is_letter, is_word, words_of-join_words, letters_of,
}

at-known : (vs : List String) (i : ℕ) → i < length vs → known vs (at vs i) ≡ true
at-known [] i h = absurd (omega arith)
at-known (v ∷ vs) zero h = ground (arith, text_eq_refl (codes v))
at-known (v ∷ vs) (suc i) h = ground (arith, at-known vs i (omega arith))

abbrev string_word : String → Bool
string_word v = is_word (codes v)

at-word :
    (vs : List String) (i : ℕ)
    → all string_word vs ≡ true
    → i < length vs
    → is_word (at vs i) ≡ true
at-word [] i h k = absurd (omega arith)
at-word (v ∷ vs) zero h k = ground arith
at-word (v ∷ vs) (suc i) h k = at-word vs i (ground arith) (omega arith)

wordlist_words : all string_word wordlist ≡ true
wordlist_words = refl

-- The word of a random byte.
abbrev word_of : ℕ → Text
word_of b = at wordlist (b % length wordlist)

all-map :
    (p : Text → Bool) (f : ℕ → Text) (bs : List ℕ)
    → ((b : ℕ) → p (f b) ≡ true)
    → all p (map f bs) ≡ true
all-map p f [] h = refl
all-map p f (b ∷ bs) h = ground (arith, h b, all-map p f bs h)

in_wordlist : (b : ℕ) → b % length wordlist < length wordlist
in_wordlist b = omega arith

abbrev is_phrase_code : ℕ → Bool
is_phrase_code c = is_letter c || c == b' '

all_weaken : (w : Text) → all is_letter w ≡ true → all is_phrase_code w ≡ true
all_weaken [] h = refl
all_weaken (c ∷ w) h = ground (arith, all_weaken w (ground arith))

join_words-codes :
    (ws : List Text) → all is_word ws ≡ true → all is_phrase_code (join_words ws) ≡ true
join_words-codes [] h = refl
join_words-codes (w ∷ []) h = all_weaken w (letters_of w (ground arith))
join_words-codes (w ∷ v ∷ ws) h =
    all-append is_phrase_code w (b' ' ∷ join_words (v ∷ ws))
      (all_weaken w (letters_of w (ground arith))) (join_words-codes (v ∷ ws) (ground arith))

lower_case-code : (c : ℕ) → is_phrase_code c ≡ true → lower_case c ≡ c
lower_case-code c h = ground arith

lower_case-codes : (s : Text) → all is_phrase_code s ≡ true → map lower_case s ≡ s
lower_case-codes [] h = refl
lower_case-codes (c ∷ s) h =
    ap₂ (λ (d : ℕ) (t : Text). d ∷ t) (lower_case-code c (ground arith))
      (lower_case-codes s (ground arith))

codes-ascii : (s : Text) → all is_phrase_code s ≡ true → All (λ c. c < 128) s
codes-ascii [] h = tt
codes-ascii (c ∷ s) h = (ground arith, codes-ascii s (ground arith))

abbrev phrase_words : (ℕ → List ℕ) → ℕ → List Text
phrase_words random_bytes word_count = map word_of (random_bytes (count_of word_count))

phrase_words-words :
    (random_bytes : ℕ → List ℕ) (word_count : ℕ)
    → all is_word (phrase_words random_bytes word_count) ≡ true
phrase_words-words random_bytes word_count =
    all-map is_word word_of (random_bytes (count_of word_count))
      λ b. at-word wordlist (b % length wordlist) wordlist_words (in_wordlist b)

words_of_nonempty :
    (ws : List Text) → 0 < length ws → all is_word ws ≡ true → words_of (join_words ws) ≡ ws
words_of_nonempty [] h k = absurd (omega arith)
words_of_nonempty (w ∷ ws) h k = words_of-join_words w ws k

-- Either number of words.
abbrev Fits : ℕ → Type 0
Fits n = ((n == 12 || n == 24) ≡ true) × (0 < n)

count_of-Fits : (word_count : ℕ) → Fits (count_of word_count)
count_of-Fits word_count =
    either_way Fits (word_count == 12) 12 24 (λ _. (refl, omega arith)) (λ _. (refl, omega arith))

module _ (random_bytes : ℕ → List ℕ) (fills : (n : ℕ) → length (random_bytes n) ≡ n) where
  phrase_words-length :
      (word_count : ℕ) → length (phrase_words random_bytes word_count) ≡ count_of word_count
  phrase_words-length word_count = length-map word_of _ ∙ fills (count_of word_count)

  words_of-generate_mnemonic :
      (word_count : ℕ)
      → words_of (generate_mnemonic random_bytes word_count) ≡ phrase_words random_bytes word_count
  unfolding generate_mnemonic
  words_of-generate_mnemonic word_count =
      words_of_nonempty (phrase_words random_bytes word_count)
        (omega (arith, phrase_words-length word_count, (count_of-Fits word_count).1))
        (phrase_words-words random_bytes word_count)

  pub fits_count-generate_mnemonic :
      (word_count : ℕ) → fits_count (words_of (generate_mnemonic random_bytes word_count)) ≡ true
  fits_count-generate_mnemonic word_count =
      ap fits_count (words_of-generate_mnemonic word_count)
      ∙ ap (λ n. n == 12 || n == 24) (phrase_words-length word_count)
      ∙ (count_of-Fits word_count).0

  module _ (platform : Platform) (ascii : LowersAscii platform) where
    lower-generate_mnemonic :
        (word_count : ℕ)
        → platform.to_lower_case (generate_mnemonic random_bytes word_count)
          ≡ generate_mnemonic random_bytes word_count
    unfolding generate_mnemonic
    lower-generate_mnemonic word_count =
        let cs =
          join_words-codes (phrase_words random_bytes word_count)
            (phrase_words-words random_bytes word_count) in
        ascii _ (codes-ascii _ cs) ∙ lower_case-codes _ cs

    -- Whatever the random bytes, a generated phrase is accepted by the check of the import, and has 12
    -- words if these were asked for, else 24. This supposes that as many bytes are filled in as are
    -- asked for, and that lower case is that of ASCII on ASCII.
    pub is_valid_mnemonic-generate_mnemonic :
        (word_count : ℕ)
        → (is_valid_mnemonic platform.to_lower_case (generate_mnemonic random_bytes word_count)
            ≡ true)
          × (length (words_of (generate_mnemonic random_bytes word_count)) ≡ count_of word_count)
    unfolding is_valid_mnemonic
    is_valid_mnemonic-generate_mnemonic word_count = (
      rw (lower-generate_mnemonic word_count, fits_count-generate_mnemonic word_count)
          (ap (all (known wordlist)) (words_of-generate_mnemonic word_count)
            ∙ all-map (known wordlist) word_of (random_bytes (count_of word_count))
                λ b. at-known wordlist (b % length wordlist) (in_wordlist b)),
      ap length (words_of-generate_mnemonic word_count) ∙ phrase_words-length word_count,
    )
