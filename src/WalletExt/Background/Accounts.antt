-- ===== src/WalletExt/Background/Accounts.antt =====
-- rstn-wallet/background.js: the accounts of an open wallet.
use resistance_network.Common.{
  ℕ, zero, suc, ◌+◌, List, [], ◌∷◌, ◌++◌, Text, codes, length, Option, none, some, if◌then◌else◌,
}
use resistance_network.Common.Int.{pos}
use resistance_network.TxHelpers.BigInt.{print_bigint}
use resistance_network.WalletExt.Platform.{Keypair, Platform}
use resistance_network.WalletExt.Vault.{or_null, encrypt_vault, generate_keypair_from_seed}
use resistance_network.WalletExt.History.{Answer, Balance, get_balance}
use resistance_network.WalletExt.Background.{
  Wallet, AccountView, Index, number, digits, missing, is_beyond, account_at, type_failure, Reply,
  no_wallet, locked_wallet, open_wallet, accounts, added, switched, no_reply, success, refusal,
  is_empty, closed, current, account_name,
}

abbrev pub view : Index → Keypair → AccountView
view index kp = record { address = kp.address; name = account_name index kp; index = index }

-- `unlockedKeypairs.map((kp, i) => …)`, from an index on
abbrev pub views : ℕ → List Keypair → List AccountView
views index [] = []
views index (kp ∷ kps) = view (number index) kp ∷ views (index + 1) kps

-- "WALLET_GET_STATE"; the answer is that of the node for the address.
unfoldable pub get_state : (Text → Answer Balance) → Wallet → Reply
get_state balance_of w = elim w.vault [
  | none ↦ no_wallet
  | some v ↦ if closed w then locked_wallet else elim (current w) [
    | none ↦ locked_wallet
    | some kp ↦ open_wallet (view w.current_account_index kp) (get_balance (balance_of kp.address))
  ]
]

-- "WALLET_GET_ACCOUNTS"
unfoldable pub get_accounts : Wallet → Reply
get_accounts w =
    if is_empty w.unlocked_keypairs
    then accounts [] none
    else accounts (views 0 w.unlocked_keypairs) (some w.current_account_index)

-- What the storage of an index leaves there: a field that is undefined is not written.
abbrev pub kept_index : Index → Option Index → Option Index
kept_index missing old = old
kept_index index old = some index

-- "WALLET_SWITCH_ACCOUNT": only a value that counts as the number of accounts or more is refused. Where
-- there is no account, the handler rejects when it reads the address, the index being set by then.
unfoldable pub switch_account : Index → Wallet → Wallet × Reply
switch_account index w =
    if is_beyond index (length w.unlocked_keypairs)
    then (w, refusal (codes "Account not found"))
    else (
      record w {
        current_account_index = index;
        active_account = kept_index index w.active_account;
      },
      elim (account_at w.unlocked_keypairs index) [
        | none ↦ no_reply
        | some kp ↦ switched kp.address (account_name index kp)
      ],
    )

-- The position of an account, if the index has one.
abbrev pub position_of : Index → Option ℕ
position_of (number n) = some n
position_of (digits n) = some n
position_of _ = none

abbrev pub rename_at : ℕ → Text → List Keypair → List Keypair
rename_at index name [] = []
rename_at zero name (kp ∷ kps) = record kp { name = some name } ∷ kps
rename_at (suc index) name (kp ∷ kps) = kp ∷ rename_at index name kps

abbrev pub rename_position : Option ℕ → Text → List Keypair → List Keypair
rename_position none name kps = kps
rename_position (some n) name kps = rename_at n name kps

-- `TextEncoder` writes a password that is null as the word.
abbrev pub password_text : Option Text → Text
password_text none = codes "null"
password_text (some password) = password

-- The addition of an account has been answered, or the derivation from a phrase is under way.
pub data Begun : Type 0 where
  stopped : Reply → Begun
  derived : (phrase : Text) → Keypair → Begun

-- The seed of the first account.
abbrev pub base_seed : List Keypair → Option Text
base_seed [] = none
base_seed (kp ∷ kps) = or_null kp.seed_phrase

module _ (platform : Platform) where
  -- The vault is written again if there is a password that is not empty.
  abbrev pub save : List ℕ → List ℕ → Option Text → Wallet → Wallet
  save salt iv none w = w
  save salt iv (some password) w = record w {
    vault = some (encrypt_vault platform salt iv w.unlocked_keypairs password);
  }

  -- "WALLET_RENAME_ACCOUNT": without an account, its name cannot be set, which throws.
  unfoldable pub rename_account : List ℕ → List ℕ → Index → Text → Wallet → Wallet × Reply
  rename_account salt iv index name w =
      if is_beyond index (length w.unlocked_keypairs)
      then (w, refusal (codes "Account not found"))
      else elim (account_at w.unlocked_keypairs index) [
        | none ↦ (w, type_failure)
        | some kp ↦ (
          save salt iv (or_null w.session_password) (record w {
            unlocked_keypairs = rename_position (position_of index) name w.unlocked_keypairs;
          }),
          success,
        )
      ]

  -- What the derivation of an account starts from.
  abbrev pub derive_account : Text → ℕ → Keypair
  derive_account phrase count =
      generate_keypair_from_seed platform (phrase ++ codes "/account/" ++ print_bigint (pos count))

  abbrev pub begin_with : Option Text → Option Text → Wallet → Begun
  begin_with none phrase w = stopped (refusal (codes "Re-unlock wallet to add accounts"))
  begin_with (some password) none w =
      stopped (refusal (codes "Missing seed — cannot derive account"))
  begin_with (some password) (some phrase) w =
      derived phrase (derive_account phrase (length w.unlocked_keypairs))

  -- "WALLET_ADD_ACCOUNT" up to the wait for the derivation.
  unfoldable pub begin_add : Wallet → Begun
  begin_add w =
      if closed w
      then stopped (refusal (codes "Wallet locked"))
      else begin_with (or_null w.session_password) (base_seed w.unlocked_keypairs) w

  -- The same behind it, on the globals of that time, to its end.
  unfoldable pub resume_add : List ℕ → List ℕ → (phrase : Text) → Keypair → Wallet → Wallet × Reply
  resume_add salt iv phrase kp w =
      let index = length w.unlocked_keypairs in
      let keypair : Keypair = record kp {
        seed_phrase = some phrase;
        name = some (codes "Account " ++ print_bigint (pos (index + 1)));
      } in
      let all_keypairs = w.unlocked_keypairs ++ keypair ∷ [] in
      (
        record w {
          unlocked_keypairs = all_keypairs;
          vault =
              some (encrypt_vault platform salt iv all_keypairs (password_text w.session_password));
          active_account = some (number index);
          current_account_index = number index;
        },
        added index keypair.address,
      )

  abbrev pub finish_add : List ℕ → List ℕ → Begun → Wallet → Wallet × Reply
  finish_add salt iv (stopped reply) w = (w, reply)
  finish_add salt iv (derived phrase kp) w = resume_add salt iv phrase kp w

  -- "WALLET_ADD_ACCOUNT", where nothing else is handled in between.
  unfoldable pub add_account : List ℕ → List ℕ → Wallet → Wallet × Reply
  add_account salt iv w = finish_add salt iv (begin_add w) w
