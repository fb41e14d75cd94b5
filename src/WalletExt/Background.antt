-- ===== src/WalletExt/Background.antt =====
-- rstn-wallet/background.js: the state of the service worker, and the handlers that create, open and
-- close a wallet. Storage does not fail. The worker takes up other messages while a handler waits for a
-- promise; a handler is here what its message comes to when none is taken up in between, and Suspended
-- has the addition of an account in the two parts around its first wait.
pub mod Accounts
pub mod Transfers
pub mod Messages
pub mod Vaults
pub mod Recovery
pub mod Suspended
use resistance_network.Common.{
  ℕ, ◌+◌, Bool, true, false, not, ◌&&◌, ◌||◌, List, [], ◌∷◌, ◌++◌, Text, codes, length, get_elem?,
  leb, Option, none, some, Error, thrown, if◌then◌else◌,
}
use resistance_network.Common.Int.{pos}
use resistance_network.TxHelpers.BigInt.{print_bigint}
use resistance_network.WalletExt.Platform.{Keypair, Platform}
use resistance_network.WalletExt.Vault.{
  Vault, or_null, encrypt_vault, decrypt_vault, generate_keypair_from_seed,
}
use resistance_network.WalletExt.Mnemonic.{
  generate_mnemonic, is_valid_mnemonic, words_of, fits_count,
}
use resistance_network.WalletExt.History.{Tx, Portfolio, text_or_else}

-- What a message can give for an index of accounts. A text that is the name of a property of arrays is
-- left out.
pub data Index : Type 0 where
  number : ℕ → Index
  -- the text of just these digits, or a list of nothing else
  digits : ℕ → Index
  -- any other value: whether it is a number, and what it counts as in a comparison, rounded down, unless
  -- this is NaN or below zero
  no_position : (is_number : Bool) (compared : Option ℕ) → Index
  missing : Index

-- `index >= length`
unfoldable pub is_beyond : Index → ℕ → Bool
is_beyond (number n) len = leb len n
is_beyond (digits n) len = leb len n
is_beyond (no_position is_number none) len = false
is_beyond (no_position is_number (some n)) len = leb len n
is_beyond missing len = false

-- `keypairs[index]`
abbrev pub account_at : List Keypair → Index → Option Keypair
account_at kps (number n) = get_elem? kps n
account_at kps (digits n) = get_elem? kps n
account_at kps _ = none

-- `index + 1` in a text: a text is put in front of the digit. Only where an account is found is it asked for.
abbrev pub next_text : Index → Text
next_text (number n) = print_bigint (pos (n + 1))
next_text (digits n) = print_bigint (pos n) ++ codes "1"
next_text _ = []

-- The globals, and below them what `chrome.storage.local` keeps.
pub record Wallet : Type 0 where
  pub unlocked_keypairs : List Keypair
  pub is_locked : Bool
  pub current_account_index : Index
  pub rpc_url : Text
  pub session_password : Option Text
  pub vault : Option Vault
  pub active_account : Option Index
  pub tx_history : List Tx
  pub stored_rpc_url : Option Text

-- An account as it is listed.
pub record AccountView : Type 0 where
  pub address : Text
  pub name : Text
  pub index : Index

pub data Reply : Type 0 where
  -- `{ success: true }`
  success : Reply
  -- `{ success: false, error }`
  failure : Error → Reply
  -- the same, with the engine's message on a property of undefined
  type_failure : Reply
  -- a handler that rejects: nothing is sent
  no_reply : Reply
  -- `{ exists: false, locked: true }` and `{ exists: true, locked: true }`
  no_wallet locked_wallet : Reply
  open_wallet : AccountView → Portfolio → Reply
  -- address and phrase
  created : Text → Text → Reply
  imported : Text → Reply
  unlocked : Option Text → Reply
  seed : Option Text → Reply
  network : Text → Reply
  -- the accounts, and the index of the active one unless there is none
  accounts : List AccountView → Option Index → Reply
  added : ℕ → Text → Reply
  -- address and name
  switched : Text → Text → Reply
  sent : Text → Reply
  claimed : Option ℕ → Option Text → Reply
  txs : List Tx → Reply
  unknown : Reply

abbrev pub refusal : Text → Reply
refusal m = failure (thrown m)

abbrev pub is_empty {ℓ} : {A : Type ℓ} → List A → Bool
is_empty [] = true
is_empty (x ∷ xs) = false

-- `isLocked || !unlockedKeypairs.length`
abbrev pub closed : Wallet → Bool
closed w = w.is_locked || is_empty w.unlocked_keypairs

abbrev pub current : Wallet → Option Keypair
current w = account_at w.unlocked_keypairs w.current_account_index

-- `kp.name || "Account " + (index + 1)`
abbrev pub account_name : Index → Keypair → Text
account_name index kp = text_or_else kp.name (codes "Account " ++ next_text index)

-- The globals when the service worker starts, before and behind the reading of the stored address.
abbrev pub default_rpc_url : Text
default_rpc_url = codes "http://localhost:9944"

unfoldable pub restart : Wallet → Wallet
restart w = record w {
  unlocked_keypairs = [];
  is_locked = true;
  current_account_index = number 0;
  rpc_url = text_or_else w.stored_rpc_url default_rpc_url;
  session_password = none;
}

abbrev pub lock : Wallet → Wallet × Reply
lock w = (record w { unlocked_keypairs = []; is_locked = true; session_password = none }, success)

unfoldable pub reset : Wallet → Wallet × Reply
reset w = (
  record w {
    unlocked_keypairs = [];
    is_locked = true;
    session_password = none;
    vault = none;
    active_account = none;
    tx_history = [];
    stored_rpc_url = none;
  },
  success,
)

-- "WALLET_GET_SEED"
unfoldable pub get_seed : Wallet → Reply
get_seed w =
    if closed w
    then refusal (codes "Wallet locked")
    else elim (current w) [ none ↦ no_reply | some kp ↦ seed (or_null kp.seed_phrase) ]

-- "WALLET_SET_NETWORK"
unfoldable pub set_network : Text → Wallet → Wallet × Reply
set_network [] w = (w, network w.rpc_url)
set_network (c ∷ url) w =
    (record w { rpc_url = c ∷ url; stored_rpc_url = some (c ∷ url) }, network (c ∷ url))

-- `typeof activeAccount === "number" ? activeAccount : 0`
unfoldable pub stored_index : Option Index → Index
stored_index (some (number n)) = number n
stored_index (some (no_position true compared)) = no_position true compared
stored_index _ = number 0

-- The vault has been read and decrypted, or the decryption has thrown.
abbrev pub open_with : Option (List Keypair) → Text → Wallet → Wallet × Reply
open_with none password w = (w, refusal (codes "Incorrect password"))
open_with (some kps) password w =
    let index = stored_index w.active_account in
    (
      record w {
        unlocked_keypairs = kps;
        current_account_index = index;
        is_locked = false;
        session_password = some password;
      },
      unlocked (elim (account_at kps index) [ none ↦ none | some kp ↦ some kp.address ]),
    )

module _ (platform : Platform) where
  -- What "WALLET_CREATE" and "WALLET_IMPORT" do once they have the phrase. The first two arguments are
  -- the salt and the nonce of the vault.
  unfoldable pub install : List ℕ → List ℕ → Text → Text → Wallet → Wallet
  install salt iv phrase password w =
      let keypair : Keypair = record (generate_keypair_from_seed platform phrase) {
        seed_phrase = some phrase;
        name = some (codes "Account 1");
      } in
      record w {
        vault = some (encrypt_vault platform salt iv (keypair ∷ []) password);
        active_account = some (number 0);
        unlocked_keypairs = keypair ∷ [];
        is_locked = false;
        current_account_index = number 0;
        session_password = some password;
      }

  abbrev pub seed_address : Text → Text
  seed_address phrase = (generate_keypair_from_seed platform phrase).address

  unfoldable pub create : (ℕ → List ℕ) → List ℕ → List ℕ → Text → Wallet → Wallet × Reply
  create random_bytes salt iv password w =
      let phrase = generate_mnemonic random_bytes 24 in
      (install salt iv phrase password w, created (seed_address phrase) phrase)

  unfoldable pub import_seed : List ℕ → List ℕ → Text → Text → Wallet → Wallet × Reply
  import_seed salt iv phrase password w =
      if not (fits_count (words_of phrase))
      then (w, refusal (codes "Seed phrase must be 12 or 24 words"))
      else if not (is_valid_mnemonic platform.to_lower_case phrase)
      then (w, refusal (codes "Seed phrase contains invalid words"))
      else (install salt iv phrase password w, imported (seed_address phrase))

  unfoldable pub unlock : Text → Wallet → Wallet × Reply
  unlock password w = elim w.vault [
    | none ↦ (w, refusal (codes "No wallet found"))
    | some v ↦ open_with (decrypt_vault platform v password) password w
  ]

  abbrev pub encrypt_again :
      List ℕ → List ℕ → Option (List Keypair) → Text → Wallet → Wallet × Reply
  encrypt_again salt iv none new_password w = (w, refusal (codes "Current password incorrect"))
  encrypt_again salt iv (some kps) new_password w = (
    record w {
      vault = some (encrypt_vault platform salt iv kps new_password);
      session_password = some new_password;
    },
    success,
  )

  -- Without a vault, its salt cannot be read, which throws.
  unfoldable pub change_password : List ℕ → List ℕ → Text → Text → Wallet → Wallet × Reply
  change_password salt iv old_password new_password w = elim w.vault [
    | none ↦ encrypt_again salt iv none new_password w
    | some v ↦ encrypt_again salt iv (decrypt_vault platform v old_password) new_password w
  ]
