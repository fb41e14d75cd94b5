-- ===== src/Lib.antt =====
-- The frontend of the Resistance Network (src/ of the repository, in TypeScript): a page talks to a
-- node over JSON-RPC, holds a wallet, and signs transactions with a post-quantum signature scheme.
-- This library models its logic below the React components.
--
-- Parts, and the files that model them:
-- - src/lib/rstn-tx-helpers.ts: TxHelpers. `toHex` and `hexToBytes` are `to_hex` and `hex_to_bytes`
--   of TxHelpers/Hex; `u128ToLeBytes` and `u64ToLeBytes` stand in TxHelpers/LittleEndian, on
--   integers of any size and sign; `canonicalEncodeTx` is `tx_parts`, the conversions that may
--   throw, followed by `assemble`, the writes into the buffer, in TxHelpers/Encode. TxHelpers/BigInt
--   is JavaScript's `BigInt` on texts and numbers and its printing. `hashTransaction` takes
--   keccak_512 as an argument.
-- - src/lib/rstn-sdk.ts: Sdk (`RstnWallet`) and Sdk/Builder (`TransactionBuilder`). The hash and the
--   ML-DSA functions of the @noble packages are the fields of `Crypto`; `IsScheme` and `IsDigest`
--   say what the code relies on: byte outputs, a key that is not empty, signatures that verify,
--   digests of 64 bytes.
-- - src/lib/rstn-client.ts: Client and Client/Methods. A client is passed through every operation. A
--   method takes what each request is answered with; callbacks are numbers, and the calls of
--   callbacks and the delays are recorded in two further fields. Calls run one after the other.
--   `rpc_loop` recurs on the rounds left; `reconnect_loop` recurs on fuel, one more than the most
--   attempts, which is enough since each round counts one attempt. Callbacks do not call back into
--   the client.
-- - src/lib/api.ts: Api, Api/Data, Api/Reads, Api/Testnet and Api/Writes; the module's variables and
--   what it reads of the browser are the record `State`. `Math.random` is an argument. The tables of
--   src/lib/protocol.ts that it answers with where no node is asked are in Api/Mock.
-- - src/lib/validation.ts: Validation.
-- - src/lib/wallet.ts: Adapter, the class `RstnWallet` that the pages sign with; it builds on Sdk
--   and on Api. Adapter/Signing is its `sign`. The browser extension is what it answers when asked.
--   Adapter/Session is the hook `useWallet`, the state of one component over the adapter, as a step
--   relation, with the ends of calls of other components.
-- - src/hooks/use-toast.ts: Toasts; a timer is a step that may be taken while its key is queued.
-- - rstn-wallet, the browser extension: WalletExt. wallet-lib.js is Bytes, Tx, Vault and History,
--   bip39.js is Mnemonic, `parseAmountWei` of background.js is Amount; its globals and handlers are
--   Background, with Accounts, Transfers and Messages (`handleMessage` for all but the messages of
--   pages); the requests of pages, which wait for the user, are Dapp and Dapp/Events. The worker
--   takes up other messages while a handler waits for a promise; a handler is here one function,
--   what its message comes to when none is taken up in between, except where it is in two parts:
--   around the wait for the user (Dapp/Events) and around the derivation of a new account
--   (`begin_add` and `resume_add` of Accounts, which Background/Suspended separates by a locking).
--   Vaults is the opening of what is stored. Platform is what it takes from its surroundings:
--   crypto.js, PBKDF2, AES-GCM, UTF-8 and JSON, with what it relies on as `IsSound`. qr.js is Qr,
--   with Correction, Masks, Placement (`buildMatrix`, `placeFormat`) and Generate (the penalty and
--   `generate`); `BitStream` is a list of bits. inpage.js and content-script.js are Page; confirm.js
--   is Confirm, and popup.js is Popup, over `handle_message`.
-- - src/components/views: Views. Monitoring, Faucet, Simulator (`BridgeSimulator`), BridgePanel
--   (`BridgeLivePanel`), Contracts, Staking and Explorer (its search) hold the state of a view as a
--   record and its handlers as functions of it, over Api, Bridge and Adapter. An asynchronous
--   handler is one function where nothing can come between, and two, up to its request and behind
--   it, where something can (Faucet); timers that drive a view are a list (Simulator). Number is
--   `parseFloat`, on exact decimals.
-- - src/lib/bridge-api.ts and src/lib/stablecoin-api.ts: Bridge, over the reads of Api.
-- Common holds lists, texts, integers and results; Json the values and answers of JSON-RPC; Runs the
-- concrete runs.
--
-- The adapter signs with Sdk's wallet, whose encoding is TxHelpers', and submits by Api. Client is
-- the SDK's own transport; Api has another one, which shares the reading of an answer (`outcome` of
-- Json).
--
-- A text is a list of UTF-16 codes. JavaScript numbers that are integers are integers of any size,
-- but for those that `parseInt` gives, which are rounded (Common/Double); those that are none are
-- told apart only where the code throws on them, and in the indices of accounts (`Index` of
-- Background), which a message may give in any form but a text that names a property of arrays.
-- Object literals are looked up without the inherited names. HTTP, timers, abortion and JSON parsing
-- are in `Reply`: a rejected request, a status, an error or a result. A response with both an error
-- and a result is not modelled.
--
-- Not modelled: what React draws, the other views and hooks, which lay out fixed texts or what these
-- parts return; `MockWallet` of src/lib/wallet.ts, which is never constructed; the drawing of the
-- popup and of the confirmation window of the extension; the Rust node, which is another program;
-- the Solidity contracts.
pub mod Common
pub mod TxHelpers
pub mod Sdk
pub mod Validation
pub mod Json
pub mod Client
pub mod Api
pub mod Adapter
pub mod Toasts
pub mod Bridge
pub mod WalletExt
pub mod Views
pub mod Runs
