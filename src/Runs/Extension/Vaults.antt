-- ===== src/Runs/Extension/Vaults.antt =====
-- Runs of the vault of rstn-wallet/background.js.
use resistance_network.Common.{◌≡◌, refl, true, [], ◌∷◌, codes, length, some}
use resistance_network.WalletExt.Platform.{Keypair}
use resistance_network.WalletExt.Background.{
  Wallet, number, missing, accounts, no_reply, restart, lock, install, unlock, get_seed, is_beyond,
}
use resistance_network.WalletExt.Background.Accounts.{
  derived, derive_account, begin_add, resume_add, get_accounts, switch_account,
}
use resistance_network.WalletExt.Background.Messages.{first_start}
use resistance_network.WalletExt.Background.Vaults.{IsRestored, unlock-install, unlock-resume_add}
use resistance_network.WalletExt.Background.Suspended.{locked_between, add_account-lock}
use resistance_network.Runs.Extension.{some_password}
use resistance_network.Runs.Extension.Simple.{simple_platform, simple_platform-IsSound}

abbrev installed : Wallet
installed = install simple_platform (1 ∷ []) (2 ∷ []) (codes "phrase") some_password first_start

unlock-install_example :
    IsRestored installed (unlock simple_platform some_password (lock installed).0).0
    × IsRestored installed (unlock simple_platform some_password (restart installed)).0
unlock-install_example =
    unlock-install simple_platform simple_platform-IsSound (1 ∷ []) (2 ∷ []) (codes "phrase")
      some_password first_start

-- What the addition of a second account has derived.
abbrev second_keypair : Keypair
second_keypair = derive_account simple_platform (codes "phrase") 1

installed_begun : begin_add simple_platform installed ≡ derived (codes "phrase") second_keypair
unfolding begin_add install
installed_begun = refl

installed_password : installed.session_password ≡ some some_password
unfolding install
installed_password = refl

abbrev extended : Wallet
extended =
    (resume_add simple_platform (3 ∷ []) (4 ∷ []) (codes "phrase") second_keypair installed).0

unlock-resume_add_example :
    IsRestored extended (unlock simple_platform some_password (lock extended).0).0
    × IsRestored extended (unlock simple_platform some_password (restart extended)).0
unlock-resume_add_example =
    unlock-resume_add simple_platform simple_platform-IsSound (3 ∷ []) (4 ∷ []) (codes "phrase")
      some_password second_keypair installed installed_password

abbrev overtaken : Wallet
overtaken =
    locked_between simple_platform (3 ∷ []) (4 ∷ []) (codes "phrase") second_keypair installed

add_account-lock_example :
    (overtaken.is_locked ≡ true)
    × (get_accounts overtaken
        ≡ accounts
            (record {
              address =
                  (derive_account simple_platform
                    (codes "phrase")
                    (length installed.unlocked_keypairs)).address;
              name = codes "Account 1";
              index = number 0;
            }
              ∷ [])
            (some (number 0)))
    × (length overtaken.unlocked_keypairs ≡ 1)
    × IsRestored overtaken (unlock simple_platform (codes "null") overtaken).0
add_account-lock_example =
    add_account-lock simple_platform simple_platform-IsSound (3 ∷ []) (4 ∷ []) (codes "phrase")
      second_keypair installed installed_begun

-- A message without an index.
switch_run : (switch_account missing installed).1 ≡ no_reply
unfolding switch_account is_beyond install
switch_run = refl

seed_run : get_seed (switch_account missing installed).0 ≡ no_reply
unfolding switch_account is_beyond install get_seed
seed_run = refl
