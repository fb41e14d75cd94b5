-- ===== src/WalletExt/Mnemonic.antt =====
-- rstn-wallet/bip39.js: the words and the phrases made of them.
pub mod Splitting
pub mod Validity
use resistance_network.Common.{
  ℕ, zero, suc, ◌%◌, Bool, true, false, not, ◌&&◌, ◌||◌, List, [], ◌∷◌, ◌++◌, map, length, all,
  keep, Text, String, codes, text_eq, is_space, trim, ◌==◌, if◌then◌else◌,
}

abbrev pub wordlist : List String
wordlist =
    "abandon" ∷ "ability" ∷ "able" ∷ "about" ∷ "above" ∷ "absent" ∷ "absorb" ∷ "abstract" ∷ "absurd"
    ∷ "abuse" ∷ "access" ∷ "accident" ∷ "account" ∷ "accuse" ∷ "achieve" ∷ "acid" ∷ "acoustic"
    ∷ "acquire" ∷ "across" ∷ "action" ∷ "actor" ∷ "actual" ∷ "adapt" ∷ "add" ∷ "addict" ∷ "address"
    ∷ "adjust" ∷ "admit" ∷ "adult" ∷ "advance" ∷ "advice" ∷ "aerobic" ∷ "affair" ∷ "afford"
    ∷ "afraid" ∷ "again" ∷ "age" ∷ "agent" ∷ "agree" ∷ "ahead" ∷ "aim" ∷ "air" ∷ "airport" ∷ "aisle"
    ∷ "alarm" ∷ "album" ∷ "alcohol" ∷ "alert" ∷ "alien" ∷ "all" ∷ "alley" ∷ "allow" ∷ "almost"
    ∷ "alone" ∷ "alpha" ∷ "already" ∷ "also" ∷ "alter" ∷ "always" ∷ "amateur" ∷ "amazing" ∷ "among"
    ∷ "amount" ∷ "amused" ∷ "analyst" ∷ "anchor" ∷ "ancient" ∷ "anger" ∷ "angle" ∷ "angry"
    ∷ "animal" ∷ "ankle" ∷ "announce" ∷ "annual" ∷ "another" ∷ "answer" ∷ "antenna" ∷ "antique"
    ∷ "anxiety" ∷ "any" ∷ "apart" ∷ "apology" ∷ "appear" ∷ "apple" ∷ "approve" ∷ "april" ∷ "arch"
    ∷ "arctic" ∷ "area" ∷ "arena" ∷ "argue" ∷ "arm" ∷ "armed" ∷ "armor" ∷ "army" ∷ "around"
    ∷ "arrange" ∷ "arrest" ∷ "arrive" ∷ "arrow" ∷ "art" ∷ "artefact" ∷ "artist" ∷ "artwork" ∷ "ask"
    ∷ "aspect" ∷ "assault" ∷ "asset" ∷ "assist" ∷ "assume" ∷ "asthma" ∷ "athlete" ∷ "atom"
    ∷ "attack" ∷ "attend" ∷ "attitude" ∷ "attract" ∷ "auction" ∷ "audit" ∷ "august" ∷ "aunt"
    ∷ "author" ∷ "auto" ∷ "autumn" ∷ "average" ∷ "avocado" ∷ "avoid" ∷ "awake" ∷ "aware" ∷ "away"
    ∷ "awesome" ∷ "awful" ∷ "awkward" ∷ "axis" ∷ "baby" ∷ "bachelor" ∷ "bacon" ∷ "badge" ∷ "bag"
    ∷ "balance" ∷ "balcony" ∷ "ball" ∷ "bamboo" ∷ "banana" ∷ "banner" ∷ "bar" ∷ "barely" ∷ "bargain"
    ∷ "barrel" ∷ "base" ∷ "basic" ∷ "basket" ∷ "battle" ∷ "beach" ∷ "bean" ∷ "beauty" ∷ "because"
    ∷ "become" ∷ "beef" ∷ "before" ∷ "begin" ∷ "behave" ∷ "behind" ∷ "believe" ∷ "below" ∷ "belt"
    ∷ "bench" ∷ "benefit" ∷ "best" ∷ "betray" ∷ "better" ∷ "between" ∷ "beyond" ∷ "bicycle" ∷ "bid"
    ∷ "bike" ∷ "bind" ∷ "biology" ∷ "bird" ∷ "birth" ∷ "bitter" ∷ "black" ∷ "blade" ∷ "blame"
    ∷ "blanket" ∷ "blast" ∷ "bleak" ∷ "bless" ∷ "blind" ∷ "blood" ∷ "blossom" ∷ "blouse" ∷ "blue"
    ∷ "blur" ∷ "blush" ∷ "board" ∷ "boat" ∷ "body" ∷ "boil" ∷ "bomb" ∷ "bone" ∷ "bonus" ∷ "book"
    ∷ "boost" ∷ "border" ∷ "boring" ∷ "borrow" ∷ "boss" ∷ "bottom" ∷ "bounce" ∷ "box" ∷ "boy"
    ∷ "bracket" ∷ "brain" ∷ "brand" ∷ "brass" ∷ "brave" ∷ "bread" ∷ "breeze" ∷ "brick" ∷ "bridge"
    ∷ "brief" ∷ "bright" ∷ "bring" ∷ "brisk" ∷ "broccoli" ∷ "broken" ∷ "bronze" ∷ "broom"
    ∷ "brother" ∷ "brown" ∷ "brush" ∷ "bubble" ∷ "buddy" ∷ "budget" ∷ "buffalo" ∷ "build" ∷ "bulb"
    ∷ "bulk" ∷ "bullet" ∷ "bundle" ∷ "bunker" ∷ "burden" ∷ "burger" ∷ "burst" ∷ "bus" ∷ "business"
    ∷ "busy" ∷ "butter" ∷ "buyer" ∷ "buzz" ∷ "cabbage" ∷ "cabin" ∷ "cable" ∷ "cactus" ∷ "cage"
    ∷ "cake" ∷ "call" ∷ "calm" ∷ "camera" ∷ "camp" ∷ "can" ∷ "canal" ∷ "cancel" ∷ "candy" ∷ "cannon"
    ∷ "canoe" ∷ "canvas" ∷ "canyon" ∷ "capable" ∷ "capital" ∷ "captain" ∷ "car" ∷ "carbon" ∷ "card"
    ∷ "cargo" ∷ []

-- `list[i]`, the empty text where it is undefined: so `join` prints it.
abbrev pub at : List String → ℕ → Text
at [] i = []
at (w ∷ ws) zero = codes w
at (w ∷ ws) (suc i) = at ws i

-- `words.join(" ")`
abbrev pub join_words : List Text → Text
join_words [] = []
join_words (w ∷ []) = w
join_words (w ∷ v ∷ ws) = w ++ b' ' ∷ join_words (v ∷ ws)

abbrev pub count_of : ℕ → ℕ
count_of word_count = if word_count == 12 then 12 else 24

-- The first argument is what `crypto.getRandomValues` fills in for a length.
unfoldable pub generate_mnemonic : (ℕ → List ℕ) → ℕ → Text
generate_mnemonic random_bytes word_count =
    join_words (map (λ b. at wordlist (b % length wordlist)) (random_bytes (count_of word_count)))

-- A code at the front of the first piece.
abbrev pub put : ℕ → List Text → List Text
put c [] = (c ∷ []) ∷ []
put c (w ∷ ws) = (c ∷ w) ∷ ws

-- `text.split(/\s+/)`; the flag tells that the code before belongs to the same white space.
unfoldable pub split_space : Bool → Text → List Text
split_space gap [] = [] ∷ []
split_space gap (c ∷ s) =
    let again = split_space true s in
    let word = put c (split_space false s) in
    if is_space c then if gap then again else [] ∷ again else word

abbrev pub non_empty : Text → Bool
non_empty [] = false
non_empty (c ∷ s) = true

-- `phrase.trim().split(/\s+/).filter(Boolean)`
unfoldable pub words_of : Text → List Text
words_of phrase = keep non_empty (split_space false (trim phrase))

-- `new Set(WORDLIST).has(w)`
abbrev pub known : List String → Text → Bool
known [] w = false
known (v ∷ vs) w = text_eq (codes v) w || known vs w

abbrev pub fits_count : List Text → Bool
fits_count words = length words == 12 || length words == 24

-- The first argument is `String.prototype.toLowerCase`.
unfoldable pub is_valid_mnemonic : (Text → Text) → Text → Bool
is_valid_mnemonic to_lower_case phrase =
    let words = words_of (to_lower_case phrase) in
    if not (fits_count words) then false else all (known wordlist) words
