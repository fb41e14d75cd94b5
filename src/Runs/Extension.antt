-- ===== src/Runs/Extension.antt =====
-- Runs of the wallet extension, rstn-wallet.
pub mod Simple
pub mod Dapp
pub mod Vaults
pub mod Qr
pub mod Page
pub mod Popup
use resistance_network.Common.{
  ℕ, zero, suc, ◌≡◌, ◌↔◌, refl, ap, Bool, true, false, List, [], ◌∷◌, ◌++◌, Text, codes, length,
  replicate, length-replicate, trim, trim_start, Option, none, some, ok, All, text_eq, ◌≤◌, arith,
  map,
}
use resistance_network.TxHelpers.Hex
use resistance_network.TxHelpers.Encode.{raw_address}
use resistance_network.Validation.{parse_prefix}
use resistance_network.WalletExt.Amount.{parse_amount_wei, split_point}
use resistance_network.WalletExt.Amount.Floor.{Spells, parse_amount_wei_iff}
use resistance_network.WalletExt.Bytes.{address_to_bytes}
use resistance_network.WalletExt.Bytes.Recipient.{address_to_bytes_iff}
use resistance_network.WalletExt.Platform.{Keypair}
use resistance_network.WalletExt.Mnemonic.{generate_mnemonic}
use resistance_network.WalletExt.History.{
  Answer, rejected, null_result, result, Balance, Tx, OnchainTx, merge_txs,
}
use resistance_network.WalletExt.History.Entries.{HasNewKeys}
use resistance_network.WalletExt.Background.{
  Wallet, Reply, created, imported, lock, restart, install, seed_address, create, import_seed,
  unlock, closed,
}
use resistance_network.WalletExt.Background.Transfers.{Node, transfer}
use resistance_network.WalletExt.Background.Transfers.Verified.{IsTransfer, transfer-IsTransfer}
use resistance_network.Sdk.{NodeTransaction}
use resistance_network.Runs.Signing.{toy_laws}
use resistance_network.WalletExt.Background.Messages.{Message, Moment, handle_message, first_start}
use resistance_network.WalletExt.Background.Recovery.{import_seed-create}
use resistance_network.WalletExt.Dapp.{
  Kind, Payload, DappRequest, Sender, Worker, origin_of, dapp_id,
}
use resistance_network.WalletExt.Dapp.Events.{
  Event, requested, confirmed, timed_out, request, run, started,
}
use resistance_network.WalletExt.Dapp.Waiting.{count}
use resistance_network.WalletExt.Dapp.Settling.{request-run}
use resistance_network.WalletExt.Dapp.Answers.{IsConsented, run-IsConsented}
use resistance_network.Runs.Extension.Simple.{
  simple_platform, simple_platform-IsSound, simple_platform-LowersAscii,
}

amount_run : parse_amount_wei (codes " 1.5 ") ≡ ok 1500000000000000000
unfolding parse_amount_wei split_point trim trim_start parse_prefix
amount_run = refl

parse_amount_wei_iff_example :
    (parse_amount_wei (codes "0.001") ≡ ok 1000000000000000)
    ↔ Spells (trim (codes "0.001")) 1000000000000000
parse_amount_wei_iff_example = parse_amount_wei_iff (codes "0.001") 1000000000000000

abbrev twos : Text
twos = replicate 40 b'2'

address_to_bytes_iff_example :
    (Hex.hex_to_bytes (raw_address (codes "rstn1" ++ twos))
      ≡ ok (address_to_bytes (codes "rstn1" ++ twos)))
    ↔ (twos ≡ replicate 40 b'1')
address_to_bytes_iff_example = address_to_bytes_iff twos refl refl

-- A node that answers nothing but a hash.
abbrev pub some_moment : Moment
some_moment = record {
  random_bytes = λ n. replicate n 7;
  salt = 1 ∷ [];
  iv = 2 ∷ [];
  balance_of = λ address. rejected;
  node = record {
    now = 5;
    nonce_of = λ address. null_result;
    broadcast_tx = λ tx. result (codes "0xab");
    faucet_claim = λ address. rejected;
    txs_of = λ address. result [];
  };
}

abbrev some_keypair : Keypair
some_keypair = record {
  public_key = 3 ∷ [];
  secret_key = 9 ∷ [];
  address = codes "rstn1ab";
  seed_phrase = none;
  name = none;
}

half_run : parse_amount_wei (codes "0.5") ≡ ok 500000000000000000
unfolding parse_amount_wei split_point trim trim_start parse_prefix
half_run = refl

transfer-IsTransfer_example :
    (tx : NodeTransaction) × (transfer simple_platform some_keypair 4
        (codes "rstn1ab")
        (codes "0.5")
      ≡ ok tx)
    × IsTransfer simple_platform some_keypair 4 (codes "rstn1ab") 500000000000000000 tx
transfer-IsTransfer_example =
    transfer-IsTransfer simple_platform toy_laws some_keypair (1 ∷ 1 ∷ 1 ∷ []) 4 (codes "rstn1ab")
      (codes "0.5") 500000000000000000 refl refl half_run

abbrev pub some_password : Text
some_password = codes "password"

abbrev pub created_wallet : Wallet
created_wallet =
    (handle_message simple_platform some_moment (Message.wallet_create some_password) first_start).0

pub created_wallet-closed : closed created_wallet ≡ false
unfolding handle_message create install
created_wallet-closed = refl

abbrev some_phrase : Text
some_phrase = generate_mnemonic some_moment.random_bytes 24

creation_run :
    (create simple_platform some_moment.random_bytes (1 ∷ []) (2 ∷ []) some_password first_start).1
    ≡ created (seed_address simple_platform some_phrase) some_phrase
unfolding create
creation_run = refl

import_seed-create_example :
    ((import_seed simple_platform (3 ∷ []) (4 ∷ []) some_phrase (codes "other") first_start).1
      ≡ imported (seed_address simple_platform some_phrase))
    × ((import_seed simple_platform
          (3 ∷ [])
          (4 ∷ [])
          some_phrase
          (codes "other")
          first_start).0.unlocked_keypairs
        ≡ (create simple_platform some_moment.random_bytes
            (1 ∷ [])
            (2 ∷ [])
            some_password
            first_start).0.unlocked_keypairs)
import_seed-create_example =
    import_seed-create simple_platform simple_platform-LowersAscii some_moment.random_bytes
      (λ n. length-replicate n 7) (1 ∷ []) (2 ∷ []) some_password first_start
      (seed_address simple_platform some_phrase) some_phrase creation_run (3 ∷ []) (4 ∷ [])
      (codes "other") first_start

abbrev some_entry : OnchainTx
some_entry = record {
  hash = some (codes "0xab");
  tx_hash = none;
  to = some (codes "rstn1ab");
  from = none;
  amount = none;
  value = some (codes "3");
  timestamp = none;
  block_time = some 4;
}
