-- ===== src/WalletExt/Background/Recovery.antt =====
-- The phrase of a wallet that was created, and its import.
use resistance_network.Common.{ℕ, ◌≡◌, refl, ap, ◌∙◌, subst, List, Text, length}
use resistance_network.WalletExt.Platform.{Platform, LowersAscii}
use resistance_network.WalletExt.Mnemonic.{generate_mnemonic}
use resistance_network.WalletExt.Mnemonic.Validity.{
  fits_count-generate_mnemonic, is_valid_mnemonic-generate_mnemonic,
}
use resistance_network.WalletExt.Background.{
  Wallet, Reply, created, imported, install, seed_address, create, import_seed,
}

module _ (platform : Platform) (ascii : LowersAscii platform) (random_bytes : ℕ → List ℕ)
    (fills : (n : ℕ) → length (random_bytes n) ≡ n) where
  import_seed-generate_mnemonic :
      (salt iv : List ℕ) (password : Text) (w : Wallet)
      → import_seed platform salt iv (generate_mnemonic random_bytes 24) password w ≡ (
        install platform salt iv (generate_mnemonic random_bytes 24) password w,
        imported (seed_address platform (generate_mnemonic random_bytes 24)),
      )
  unfolding import_seed
  import_seed-generate_mnemonic salt iv password w =
      rw
        (
          fits_count-generate_mnemonic random_bytes fills 24,
          (is_valid_mnemonic-generate_mnemonic random_bytes fills platform ascii 24).0,
        )
        refl

  -- The phrase that the creation of a wallet shows can be imported into any other wallet, under any
  -- password, and gives the same address and the same keys. This supposes that as many random bytes are
  -- filled in as are asked for, and that lower case is that of ASCII on ASCII.
  pub import_seed-create :
      (salt iv : List ℕ) (password : Text) (w : Wallet) (address phrase : Text)
      → (create platform random_bytes salt iv password w).1 ≡ created address phrase
      → (salt' iv' : List ℕ) (password' : Text) (u : Wallet)
      → ((import_seed platform salt' iv' phrase password' u).1 ≡ imported address)
        × ((import_seed platform salt' iv' phrase password' u).0.unlocked_keypairs
            ≡ (create platform random_bytes salt iv password w).0.unlocked_keypairs)
  unfolding create install
  import_seed-create salt iv password w address phrase e salt' iv' password' u =
      let same_address : seed_address platform (generate_mnemonic random_bytes 24) ≡ address = cc in
      let same_phrase : generate_mnemonic random_bytes 24 ≡ phrase = cc in
      let done = import_seed-generate_mnemonic salt' iv' password' u in
      subst
        (λ p.
          ((import_seed platform salt' iv' p password' u).1 ≡ imported address)
          × ((import_seed platform salt' iv' p password' u).0.unlocked_keypairs
              ≡ (create platform random_bytes salt iv password w).0.unlocked_keypairs))
        same_phrase
        (
          ap (λ (r : Wallet × Reply). r.1) done ∙ ap imported same_address,
          ap (λ (r : Wallet × Reply). r.0.unlocked_keypairs) done,
        )
