-- ===== src/WalletExt.antt =====
-- rstn-wallet: the browser extension, whose `window.rstn` the pages' wallet adapter looks for.
pub mod Bytes
pub mod Tx
pub mod Amount
pub mod Platform
pub mod Vault
pub mod Mnemonic
pub mod History
pub mod Background
pub mod Dapp
pub mod Page
pub mod Confirm
pub mod Popup
pub mod Qr
