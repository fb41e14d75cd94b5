-- ===== src/WalletExt/Vault.antt =====
-- rstn-wallet/wallet-lib.js: key pairs and the encrypted vault.
use resistance_network.Common.{ℕ, List, [], ◌∷◌, map, Text, codes, trim, Option, none, some}
use resistance_network.Sdk.{derive_address}
use resistance_network.WalletExt.Platform.{Keypair, Platform}

-- What `chrome.storage.local` keeps under "vault".
pub record Vault : Type 0 where
  pub salt : List ℕ
  pub iv : List ℕ
  pub ciphertext : List ℕ

-- `text || null`
abbrev pub or_null : Option Text → Option Text
or_null none = none
or_null (some []) = none
or_null (some (c ∷ s)) = some (c ∷ s)

-- The object that is written, and the one that is read.
abbrev pub stored : Keypair → Keypair
stored kp = record kp { seed_phrase = or_null kp.seed_phrase; name = or_null kp.name }

abbrev pub map_option {ℓ κ} : {A : Type ℓ} {B : Type κ} → (A → B) → Option A → Option B
map_option f none = none
map_option f (some a) = some (f a)

abbrev pub bind_option {ℓ κ} : {A : Type ℓ} {B : Type κ} → Option A → (A → Option B) → Option B
bind_option none f = none
bind_option (some a) f = f a

module _ (platform : Platform) where
  open platform use {
    crypto, to_lower_case, derive_bits, derive_key, encrypt, decrypt, utf8, utf8_text, stringify,
    parse,
  }

  -- The salt and the nonce are what `crypto.getRandomValues` filled in.
  unfoldable pub encrypt_vault : List ℕ → List ℕ → List Keypair → Text → Vault
  encrypt_vault salt iv keypairs password =
      let key = derive_key (utf8 password) salt in
      record {
        salt = salt;
        iv = iv;
        ciphertext = encrypt key iv (utf8 (stringify (map stored keypairs)));
      }

  -- Nothing stands for what the function throws.
  unfoldable pub decrypt_vault : Vault → Text → Option (List Keypair)
  decrypt_vault vault password =
      bind_option (decrypt (derive_key (utf8 password) vault.salt) vault.iv vault.ciphertext)
        λ content. map_option (map stored) (parse (utf8_text content))

  unfoldable pub generate_keypair_from_seed : Text → Keypair
  generate_keypair_from_seed seed_phrase =
      let normalized = trim (to_lower_case seed_phrase) in
      let keys = crypto.keygen (derive_bits (utf8 normalized) (utf8 (codes "rstn-wallet-seed"))) in
      record {
        public_key = keys.public_key;
        secret_key = keys.secret_key;
        address = derive_address crypto keys.public_key;
        seed_phrase = some normalized;
        name = none;
      }
