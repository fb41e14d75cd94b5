-- ===== src/WalletExt/Background/Suspended.antt =====
-- The addition of an account of rstn-wallet/background.js, when another message is handled while it waits
-- for the derivation.
use resistance_network.Common.{
  ℕ, ◌≡◌, refl, ap, subst, true, List, [], ◌∷◌, Text, codes, length, Option, none, some, either_way,
}
use resistance_network.TxHelpers.BigInt.{print_bigint, print_loop}
use resistance_network.WalletExt.Platform.{Keypair, Platform, IsSound}
use resistance_network.WalletExt.Vault.{or_null}
use resistance_network.WalletExt.Background.{
  Wallet, accounts, closed, number, stored_index, lock, unlock,
}
use resistance_network.WalletExt.Background.Accounts.{
  view, Begun, stopped, derived, base_seed, derive_account, begin_with, begin_add, resume_add,
  get_accounts,
}
use resistance_network.WalletExt.Background.Vaults.{IsRestored, reopened}

module _ (platform : Platform) where
  IsDerived : Wallet → Begun → Type 0
  IsDerived w (stopped reply) = Unit {0}
  IsDerived w (derived phrase kp) =
      (base_seed w.unlocked_keypairs ≡ some phrase)
      × (kp ≡ derive_account platform phrase (length w.unlocked_keypairs))

  begin_with-IsDerived :
      (password phrase : Option Text) (w : Wallet)
      → base_seed w.unlocked_keypairs ≡ phrase
      → IsDerived w (begin_with platform password phrase w)
  unfolding IsDerived
  begin_with-IsDerived none phrase w e = tt
  begin_with-IsDerived (some password) none w e = tt
  begin_with-IsDerived (some password) (some phrase) w e = (e, refl)

  begin_add-IsDerived : (w : Wallet) → IsDerived w (begin_add platform w)
  unfolding begin_add IsDerived
  begin_add-IsDerived w =
      either_way (IsDerived w) (closed w) _ _ (λ _. tt)
        λ _.
          begin_with-IsDerived (or_null w.session_password) (base_seed w.unlocked_keypairs) w refl

-- An account is being derived when the wallet is locked; then the derivation is done.
abbrev pub locked_between : Platform → List ℕ → List ℕ → (phrase : Text) → Keypair → Wallet → Wallet
locked_between platform salt iv phrase kp w = (resume_add platform salt iv phrase kp (lock w).0).0

-- Where the derivation of another account has begun and the wallet is locked before it is done, the
-- wallet is locked behind it and yet holds one account, the new one, and tells its address to whoever asks
-- for the accounts; the stored vault opens, under the password "null", to this account alone, in place
-- of the accounts that it held. The rest of the addition is not interrupted. This supposes that AES-GCM and JSON give back what was put in.
pub add_account-lock :
    (platform : Platform) (sound : IsSound platform) (salt iv : List ℕ) (phrase : Text)
    (kp : Keypair) (w : Wallet)
    → begin_add platform w ≡ derived phrase kp
    → ((locked_between platform salt iv phrase kp w).is_locked ≡ true)
      × (get_accounts (locked_between platform salt iv phrase kp w)
          ≡ accounts
              (record {
                address = (derive_account platform phrase (length w.unlocked_keypairs)).address;
                name = codes "Account 1";
                index = number 0;
              }
                ∷ [])
              (some (number 0)))
      × (length (locked_between platform salt iv phrase kp w).unlocked_keypairs ≡ 1)
      × IsRestored
          (locked_between platform salt iv phrase kp w)
          (unlock platform (codes "null") (locked_between platform salt iv phrase kp w)).0
unfolding IsDerived resume_add get_accounts stored_index print_bigint print_loop
add_account-lock platform sound salt iv phrase kp w begun =
    let (seed, same) : IsDerived platform w (derived phrase kp) =
      subst (IsDerived platform w) begun (begin_add-IsDerived platform w) in
    let after = locked_between platform salt iv phrase kp w in
    (
      refl,
      ap
          (λ (k : Keypair).
            accounts (view (number 0) (record k { name = some (codes "Account 1") }) ∷ [])
              (some (number 0)))
          same,
      refl,
      reopened platform sound after after salt iv (codes "null") refl refl,
    )
