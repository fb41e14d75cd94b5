-- ===== src/WalletExt/Background/Messages.antt =====
-- rstn-wallet/background.js: `handleMessage` for the messages of the popup, each handled to its end.
use resistance_network.Common.{ℕ, true, List, [], Text, none}
use resistance_network.WalletExt.Platform.{Platform}
use resistance_network.WalletExt.History.{Answer, Balance}
use resistance_network.WalletExt.Background.{
  Wallet, Index, number, Reply, unknown, network, default_rpc_url, lock, reset, get_seed,
  set_network, create, import_seed, unlock, change_password,
}
use resistance_network.WalletExt.Background.Accounts.{
  get_state, get_accounts, switch_account, rename_account, add_account,
}
use resistance_network.WalletExt.Background.Transfers.{Node, send, get_txs, faucet}

pub data Message : Type 0 where
  wallet_get_state wallet_lock wallet_get_seed wallet_reset wallet_get_network : Message
  wallet_get_txs wallet_faucet wallet_get_accounts wallet_add_account : Message
  wallet_create wallet_unlock : (password : Text) → Message
  wallet_import : (phrase password : Text) → Message
  wallet_change_password : (old_password new_password : Text) → Message
  wallet_set_network : (url : Text) → Message
  wallet_send : (to amount : Text) → Message
  wallet_switch_account : (index : Index) → Message
  wallet_rename_account : (index : Index) (name : Text) → Message
  other : Message

-- What the handling of one message finds: random bytes and the answers of the node.
pub record Moment : Type 0 where
  pub random_bytes : ℕ → List ℕ
  pub salt : List ℕ
  pub iv : List ℕ
  pub balance_of : Text → Answer Balance
  pub node : Node

-- What a message comes to when nothing else is handled before its handler ends.
unfoldable pub handle_message : Platform → Moment → Message → Wallet → Wallet × Reply
handle_message platform m message w = elim message [
  | Message.wallet_get_state ↦ (w, get_state m.balance_of w)
  | Message.wallet_create password ↦ create platform m.random_bytes m.salt m.iv password w
  | Message.wallet_import phrase password ↦ import_seed platform m.salt m.iv phrase password w
  | Message.wallet_unlock password ↦ unlock platform password w
  | Message.wallet_lock ↦ lock w
  | Message.wallet_get_seed ↦ (w, get_seed w)
  | Message.wallet_change_password old_password new_password ↦
      change_password platform m.salt m.iv old_password new_password w
  | Message.wallet_reset ↦ reset w
  | Message.wallet_get_network ↦ (w, network w.rpc_url)
  | Message.wallet_set_network url ↦ set_network url w
  | Message.wallet_send to amount ↦ send platform m.node to amount w
  | Message.wallet_get_txs ↦ (w, get_txs platform m.node w)
  | Message.wallet_faucet ↦ faucet m.node w
  | Message.wallet_get_accounts ↦ (w, get_accounts w)
  | Message.wallet_add_account ↦ add_account platform m.salt m.iv w
  | Message.wallet_switch_account index ↦ switch_account index w
  | Message.wallet_rename_account index name ↦ rename_account platform m.salt m.iv index name w
  | Message.other ↦ (w, unknown)
]

-- The first start of the service worker, over an empty storage.
abbrev pub first_start : Wallet
first_start = record {
  unlocked_keypairs = [];
  is_locked = true;
  current_account_index = number 0;
  rpc_url = default_rpc_url;
  session_password = none;
  vault = none;
  active_account = none;
  tx_history = [];
  stored_rpc_url = none;
}
