-- ===== src/WalletExt/Background/Vaults.antt =====
-- The vault that creating, importing and adding an account store, and its opening.
use resistance_network.Common.{
  ℕ, ◌≡◌, refl, sym, ap, ap₂, subst, ◌∙◌, false, List, [], ◌∷◌, map, Text, Option, none, some,
}
use resistance_network.WalletExt.Platform.{Keypair, Platform, IsSound}
use resistance_network.WalletExt.Vault.{Vault, or_null, stored, encrypt_vault, decrypt_vault}
use resistance_network.WalletExt.Background.{
  Wallet, Reply, stored_index, restart, lock, install, open_with, unlock,
}
use resistance_network.WalletExt.Background.Accounts.{password_text, resume_add}

-- An open wallet with the accounts of another one, names included, and the same active account. An empty
-- phrase or name is the same as none.
pub record IsRestored (before after : Wallet) : Type 0 where
  pub is_open : after.is_locked ≡ false
  pub same : map stored after.unlocked_keypairs ≡ map stored before.unlocked_keypairs
  pub index : after.current_account_index ≡ before.current_account_index

or_null_twice : (o : Option Text) → or_null (or_null o) ≡ or_null o
or_null_twice none = refl
or_null_twice (some []) = refl
or_null_twice (some (c ∷ s)) = refl

stored_twice : (kps : List Keypair) → map stored (map stored kps) ≡ map stored kps
stored_twice [] = refl
stored_twice (kp ∷ kps) =
    ap₂
      (λ (s n : Option Text). record kp { seed_phrase = s; name = n } ∷ map stored (map stored kps))
      (or_null_twice kp.seed_phrase) (or_null_twice kp.name)
    ∙ ap (λ (ks : List Keypair). stored kp ∷ ks) (stored_twice kps)

module _ (platform : Platform) (sound : IsSound platform) where
  open sound use {decrypt-encrypt, parse-stringify}

  decrypt_vault-encrypt_vault :
      (salt iv : List ℕ) (kps : List Keypair) (password : Text)
      → decrypt_vault platform (encrypt_vault platform salt iv kps password) password
        ≡ some (map stored (map stored kps))
  unfolding decrypt_vault encrypt_vault
  decrypt_vault-encrypt_vault salt iv kps password = rw (decrypt-encrypt, parse-stringify) refl

  unlock-some :
      (password : Text) (v : Vault) (w : Wallet)
      → w.vault ≡ some v
      → unlock platform password w ≡ open_with (decrypt_vault platform v password) password w
  unfolding unlock
  unlock-some password v w e = rw e refl

  -- A wallet that keeps the vault and the stored index of another one.
  pub reopened :
      (w u : Wallet) (salt iv : List ℕ) (password : Text)
      → u.vault ≡ some (encrypt_vault platform salt iv w.unlocked_keypairs password)
      → stored_index u.active_account ≡ w.current_account_index
      → IsRestored w (unlock platform password u).0
  reopened w u salt iv password at active =
      subst (λ (r : Wallet × Reply). IsRestored w r.0)
        (sym (
          unlock-some password _ u at
          ∙ ap (λ o. open_with o password u)
              (decrypt_vault-encrypt_vault salt iv w.unlocked_keypairs password)))
        (record {
          is_open = refl;
          same =
              ap (map stored) (stored_twice w.unlocked_keypairs) ∙ stored_twice w.unlocked_keypairs;
          index = active;
        })

  -- A wallet that was just created from a phrase, or imported, opens again under the same password, after
  -- it was locked and after the service worker was restarted, to the same account and the same active
  -- one. This supposes that AES-GCM and JSON give back what was put in.
  pub unlock-install :
      (salt iv : List ℕ) (phrase password : Text) (w : Wallet)
      → IsRestored
          (install platform salt iv phrase password w)
          (unlock platform password (lock (install platform salt iv phrase password w)).0).0
        × IsRestored
            (install platform salt iv phrase password w)
            (unlock platform password (restart (install platform salt iv phrase password w))).0
  unfolding install restart stored_index
  unlock-install salt iv phrase password w =
      let w' = install platform salt iv phrase password w in
      (
        reopened w' (lock w').0 salt iv password refl refl,
        reopened w' (restart w') salt iv password refl refl,
      )

  -- What an addition of an account leaves when the derivation that it waited for is done, whatever
  -- happened meanwhile, opens again under the password that the session has by then, after it was locked
  -- and after the service worker was restarted, to the same accounts, the new one among them, with the new
  -- one active. The rest of the addition is not interrupted. This supposes that AES-GCM and JSON
  -- give back what was put in.
  pub unlock-resume_add :
      (salt iv : List ℕ) (phrase password : Text) (kp : Keypair) (w : Wallet)
      → w.session_password ≡ some password
      → IsRestored
          (resume_add platform salt iv phrase kp w).0
          (unlock platform password (lock (resume_add platform salt iv phrase kp w).0).0).0
        × IsRestored
            (resume_add platform salt iv phrase kp w).0
            (unlock platform password (restart (resume_add platform salt iv phrase kp w).0)).0
  unfolding restart stored_index resume_add
  unlock-resume_add salt iv phrase password kp w at =
      let w' = (resume_add platform salt iv phrase kp w).0 in
      let under : w'.vault ≡ some (encrypt_vault platform salt iv w'.unlocked_keypairs password) =
        ap (λ o. some (encrypt_vault platform salt iv w'.unlocked_keypairs (password_text o))) at in
      (
        reopened w' (lock w').0 salt iv password under refl,
        reopened w' (restart w') salt iv password under refl,
      )
