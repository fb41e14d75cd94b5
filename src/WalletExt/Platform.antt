-- ===== src/WalletExt/Platform.antt =====
-- rstn-wallet: what the service worker calls. The lattice scheme and the hash are those of the bundle
-- crypto.js, as Sdk's `Crypto`; PBKDF2, AES-GCM, UTF-8, JSON and the tables of Unicode are the
-- platform's.
use resistance_network.Common.{ℕ, ◌≡◌, ◌<◌, List, Text, Option, some, map, All}
use resistance_network.Sdk.{Crypto}
use resistance_network.Adapter.Signing.{lower_case}

-- An account: an element of `unlockedKeypairs`, or of the list that a vault holds.
pub record Keypair : Type 0 where
  pub public_key : List ℕ
  pub secret_key : List ℕ
  pub address : Text
  pub seed_phrase : Option Text
  pub name : Option Text

pub record Platform : Type 0 where
  pub crypto : Crypto
  -- `String.prototype.toLowerCase`
  pub to_lower_case : Text → Text
  -- the 256 bits that PBKDF2 with 100000 rounds derives from a password and a salt
  pub derive_bits : List ℕ → List ℕ → List ℕ
  -- the AES key that PBKDF2 with 600000 rounds derives from a password and a salt
  pub derive_key : List ℕ → List ℕ → List ℕ
  -- AES-GCM: key, nonce, data; decryption rejects on a tag that does not fit
  pub encrypt : List ℕ → List ℕ → List ℕ → List ℕ
  pub decrypt : List ℕ → List ℕ → List ℕ → Option (List ℕ)
  -- `TextEncoder` and `TextDecoder`
  pub utf8 : Text → List ℕ
  pub utf8_text : List ℕ → Text
  -- JSON of accounts, and its reading, which throws on what is none
  pub stringify : List Keypair → Text
  pub parse : Text → Option (List Keypair)

-- What the wallet relies on: what was encrypted is decrypted under the same key and nonce, and what was
-- written as JSON in UTF-8 is read again.
pub record IsSound (p : Platform) : Type 0 where
  pub decrypt-encrypt :
      (key iv content : List ℕ) → p.decrypt key iv (p.encrypt key iv content) ≡ some content
  pub parse-stringify :
      (ks : List Keypair) → p.parse (p.utf8_text (p.utf8 (p.stringify ks))) ≡ some ks

-- On letters of ASCII, lower case is what it is there.
abbrev pub LowersAscii : Platform → Type 0
LowersAscii p = (s : Text) → All (λ c. c < 128) s → p.to_lower_case s ≡ map lower_case s
