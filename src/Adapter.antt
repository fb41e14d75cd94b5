-- ===== src/Adapter.antt =====
-- src/lib/wallet.ts: the class `RstnWallet` of the wallet adapter, which the pages sign with. The
-- browser extension is a parameter: what it answers when asked.
pub mod Signing
pub mod Tags
pub mod Guards
pub mod Session
use resistance_network.Common.{
  ℕ, ◌+◌, Bool, true, false, not, ◌&&◌, Option, none, some, List, [], ◌∷◌, ◌++◌, map, Text, codes,
  leb, if◌then◌else◌, Result, ok, err, Error, thrown, ◌>>=◌,
}
use resistance_network.Common.Int.{ℤ, pos}
use resistance_network.TxHelpers.BigInt.{Num, int, no_int}
use resistance_network.TxHelpers.Encode.{UnsignedTransaction, or_default}
use resistance_network.Json.{
  Json, Items, nil, cons, end, field, null, num, str, arr, obj, whole, Request, Reply,
}
use resistance_network.Sdk.{
  Crypto, Wallet, SignedTransaction, NodeTransaction, generate, sign_tx, to_node_format,
}
use resistance_network.Sdk.Builder
use resistance_network.Api.{State, text_or}
use resistance_network.Api.Data.{WalletPortfolio}
use resistance_network.Api.Mock.Stats.{wallet_portfolio}
use resistance_network.Api.Reads.{read}
use resistance_network.Api.Writes.{submit_transaction}

-- The type of `SignParams.type`.
pub data Kind : Type 0 where
  transfer stake unstake delegate claim governance contract_deploy contract_call : Kind

abbrev pub kind_name : Kind → Text
kind_name Kind.transfer = codes "Transfer"
kind_name Kind.stake = codes "Stake"
kind_name Kind.unstake = codes "Unstake"
kind_name Kind.delegate = codes "Delegate"
kind_name Kind.claim = codes "Claim"
kind_name Kind.governance = codes "Governance"
kind_name Kind.contract_deploy = codes "ContractDeploy"
kind_name Kind.contract_call = codes "ContractCall"

pub record SignParams : Type 0 where
  pub to : Text
  pub value : Text
  pub kind : Kind
  pub data_text : Option Text

-- What `sign` returns; `fee` and `status` are the constants of the source.
pub record Receipt : Type 0 where
  pub hash : Text
  pub from : Text
  pub to : Text
  pub value : Text
  pub kind : Kind
  pub fee : Text
  pub signature : Text
  pub status : Text

pub record ConnectReply : Type 0 where
  pub approved : Bool
  pub address : Text
  pub error : Option Text

pub record SignReply : Type 0 where
  pub approved : Bool
  pub signature : Text
  pub error : Option Text

-- `window.rstn`: what its functions answer, or throw. It may have no `sign`.
pub record Extension : Type 0 where
  pub is_rstn : Bool
  pub connect : Result ConnectReply
  pub sign : Option (Json → Result SignReply)

-- The fields of the class.
pub record Adapter : Type 0 where
  pub address : Option Text
  pub extension : Option Extension
  pub sdk_wallet : Option Wallet

abbrev pub new_adapter : Adapter
new_adapter = record { address = none; extension = none; sdk_wallet = none }

-- The import of the SDK: it fails with a message, or gives the random seed of a key pair.
pub data SdkLoad : Type 0 where
  broken : Text → SdkLoad
  loaded : List ℕ → SdkLoad

-- The answer of the extension to `connect`.
abbrev pub accept : Adapter → Result ConnectReply → Adapter × Result Text
accept a (err e) = (a, err e)
accept a (ok reply) =
    if reply.approved
    then (record a { address = some reply.address }, ok reply.address)
    else (a, err (thrown (text_or reply.error (codes "Connection rejected"))))

-- The key pair of the page.
abbrev pub make_keys : Crypto → SdkLoad → Adapter → Adapter × Result Text
make_keys crypto (broken message) a = (
  a,
  err (
      thrown
        (codes "RSTN wallet extension not detected and SDK initialization failed: " ++ message)),
)
make_keys crypto (loaded seed) a =
    let w = generate crypto seed in
    (record a { sdk_wallet = some w; address = some w.address }, ok w.address)

-- `connect`, by what stands at `window.rstn`.
unfoldable pub connect : Crypto → Option Extension → SdkLoad → Adapter → Adapter × Result Text
connect crypto none sdk a = make_keys crypto sdk (record a { extension = none })
connect crypto (some e) sdk a =
    let a' : Adapter = record a { extension = some e } in
    if e.is_rstn then accept a' e.connect else make_keys crypto sdk a'

-- `disconnect`, where the extension, if it has such a function, does not throw.
unfoldable pub disconnect : Adapter → Adapter
disconnect a = record a { address = none; sdk_wallet = none }
