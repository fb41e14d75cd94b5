-- ===== src/Views/Contracts.antt =====
-- src/components/views/ContractsView.tsx: deploying, calling and reading a contract. The time of an entry
-- of the log, the printing of the messages that the engine throws and the answers of the node are
-- arguments; what the hook of the wallet fetches behind a signature is left to Adapter/Session.
pub mod Deployed
use resistance_network.Common.{
  ℕ, ◌+◌, Bool, true, false, not, ◌&&◌, ◌||◌, List, [], ◌∷◌, ◌++◌, Text, codes, text_eq, length,
  take, ltb, if◌then◌else◌, Option, none, some, Result, ok, err, Error, replicate,
}
use resistance_network.Common.Int.{pos}
use resistance_network.TxHelpers.BigInt.{Num, print_bigint}
use resistance_network.Validation.{HexOptions, is_valid_hex, is_valid_rstn_address}
use resistance_network.Json.{Json, Decimal, str, Request, Reply}
use resistance_network.Sdk.{Crypto}
use resistance_network.Api.{State, text_or}
use resistance_network.Api.Data.{WalletPortfolio}
use resistance_network.Api.Mock.Stats.{wallet_portfolio}
use resistance_network.Api.Reads.{
  read, ContractCallResult, call_contract, get_code, get_contract_address,
}
use resistance_network.Adapter.{Kind, SignParams, Receipt, Adapter}
use resistance_network.Adapter.Signing.{sign}
use resistance_network.Adapter.Session.{WalletState, sign_guard}
use resistance_network.Views.Messages.{message_of}
use resistance_network.Views.Number.{is_empty}

pub data Tab : Type 0 where
  deploy_tab : Tab
  call_tab : Tab
  read_tab : Tab

pub data LogKind : Type 0 where
  success : LogKind
  failure : LogKind
  information : LogKind

pub record LogEntry : Type 0 where
  pub kind : LogKind
  pub text : Text
  pub timestamp : ℕ

pub record Contracts : Type 0 where
  pub tab : Tab
  pub bytecode : Text
  pub deploying : Bool
  pub deployed_address : Option Text
  pub deploy_tx_hash : Option Text
  pub call_address : Text
  pub call_data : Text
  pub call_value : Text
  pub calling : Bool
  pub call_result : Option ContractCallResult
  pub read_address : Text
  pub read_code : Option Text
  pub reading : Bool
  pub logs : List LogEntry

unfoldable pub mounted : Contracts
mounted = record {
  tab = deploy_tab;
  bytecode = codes "0x604260005260206000f3";
  deploying = false;
  deployed_address = none;
  deploy_tx_hash = none;
  call_address = [];
  call_data = codes "0x";
  call_value = codes "0";
  calling = false;
  call_result = none;
  read_address = [];
  read_code = none;
  reading = false;
  logs = [];
}

unfoldable pub add_log : ℕ → LogKind → Text → Contracts → Contracts
add_log now kind text v = record v {
  logs = take 20 (record { kind = kind; text = text; timestamp = now } ∷ v.logs);
}

-- `min_length` alone
abbrev pub at_least_two : HexOptions
at_least_two = record { require_prefix = false; min_length = some 2; max_length = none }

-- The message that refuses the bytecode, or none.
unfoldable pub refused_bytecode : Text → Option Text
refused_bytecode code =
    if is_empty code || text_eq code (codes "0x")
    then some (codes "Bytecode vacío — pega el bytecode a desplegar")
    else if not (is_valid_hex code at_least_two)
    then some (codes "Bytecode inválido — debe ser hexadecimal (0x6080...)")
    else none

abbrev pub deploy_params : Text → SignParams
deploy_params code = record {
  to = codes "rstn1deploy" ++ replicate 30 b'0';
  value = codes "0";
  kind = Kind.contract_deploy;
  data_text = some code;
}

abbrev pub number_or : Option Decimal → Decimal
number_or none = record { mantissa = pos 0; places = 0 }
number_or (some d) = d

-- What the page takes from its surroundings.
pub record Surroundings : Type 0 where
  pub crypto : Crypto
  pub dev : Bool
  pub adapter : Adapter
  pub session : WalletState
  pub nonces : Request → Reply (WalletPortfolio × Option Decimal)
  pub signing_nonces : Request → Reply (WalletPortfolio × Option Num)
  pub addresses : Request → Reply Text
  pub submissions : Request → Reply Text
  pub calls : Request → Reply ContractCallResult
  pub codes_of : Request → Reply (Option Text)
  pub random : Text
  pub native : Error → Text
  pub now : ℕ

-- The nonce of `api.getWalletPortfolio`, 0 where it has none.
unfoldable pub deploy_nonce : Surroundings → Text → State → State × Decimal
deploy_nonce e address s =
    let (s', reply) =
      read e.nonces (codes "rstn_getBalance") (str address ∷ []) (wallet_portfolio, none)
        (wallet_portfolio, none) s in
    (s', number_or reply.1)

-- `wallet.sign` of the hook: its guard, and the adapter.
unfoldable pub wallet_sign : Surroundings → SignParams → State → State × Result Receipt
wallet_sign e params s = elim (sign_guard e.session) [
  | err x ↦ (s, err x)
  | ok a ↦ sign e.crypto e.dev e.signing_nonces e.submissions e.random e.adapter params s
]

-- What is shown of the signature's end, `finally` included.
unfoldable pub deployed : Surroundings → Result Receipt → Contracts → Contracts
deployed e (ok r) v =
    record (add_log e.now success
      (codes "Contrato desplegado. Tx: "
        ++ (take 18 r.hash ++ codes "... Espera 1 bloque para confirmación."))
      (record v { deploy_tx_hash = some r.hash })) { deploying = false }
deployed e (err x) v = record (add_log e.now failure (message_of e.native x) v) {
  deploying = false;
}

-- `handleDeploy` behind its guards.
unfoldable pub deploy : Surroundings → Text → State → Contracts → State × Contracts
deploy e address s v =
    let v' =
      add_log e.now information (codes "Firmando transacción de deploy con Dilithium3...")
        (record v { deploying = true; deployed_address = none; deploy_tx_hash = none }) in
    let (s', nonce) = deploy_nonce e address s in
    let (s'', predicted) = get_contract_address e.addresses address nonce s' in
    let v'' =
      add_log e.now information (codes "Dirección predicha: " ++ predicted)
        (record v' { deployed_address = some predicted }) in
    let (t, r) = wallet_sign e (deploy_params v.bytecode) s'' in (t, deployed e r v'')

-- Behind the guard of the wallet.
unfoldable pub deploy_checked : Surroundings → Text → State → Contracts → State × Contracts
deploy_checked e address s v = elim (refused_bytecode v.bytecode) [
  | some m ↦ (s, add_log e.now failure m v)
  | none ↦ deploy e address s v
]

-- The guard of the wallet is that of its own `sign`.
unfoldable pub handle_deploy : Surroundings → State → Contracts → State × Contracts
handle_deploy e s v = elim (sign_guard e.session) [
  | err x ↦ (s, v)
  | ok address ↦ deploy_checked e address s v
]

-- The timer behind a deployment, with the address that was predicted.
unfoldable pub take_address : Text → Contracts → Contracts
take_address predicted v = record v { call_address = predicted; read_address = predicted }

-- The message that refuses an address; `empty` is that of an empty one.
unfoldable pub refused_address : Text → Text → Option Text
refused_address empty a =
    if is_empty a
    then some empty
    else if not (is_valid_rstn_address a)
    then some (codes "Dirección inválida — debe empezar por rstn1...")
    else none

abbrev pub ellipsis : ℕ → Text → Text
ellipsis n s = take n s ++ (if ltb n (length s) then codes "..." else [])

-- `wallet.address || undefined`
abbrev pub address_json : Option Text → Option Json
address_json none = none
address_json (some []) = none
address_json (some (c ∷ a)) = some (str (c ∷ a))

unfoldable pub called : Surroundings → ContractCallResult → Contracts → Contracts
called e r v =
    let v' = record v { call_result = some r; calling = false } in
    if r.success
    then add_log e.now success
        (codes "Llamada exitosa · "
          ++ (print_bigint (pos r.gas_used) ++ (codes " gas · output: " ++ ellipsis 24 r.output)))
        v'
    else add_log e.now failure (text_or r.error (codes "La llamada revirtió o falló")) v'

-- `handleCall`; its request has an answer to fall back on, so that it does not throw.
unfoldable pub handle_call : Surroundings → State → Contracts → State × Contracts
handle_call e s v = elim (refused_address (codes "Pega la dirección del contrato") v.call_address) [
  | some m ↦ (s, add_log e.now failure m v)
  | none ↦
      let v' =
        add_log e.now information
          (codes "Llamando contrato " ++ (take 14 v.call_address ++ codes "..."))
          (record v { calling = true; call_result = none }) in
      let (s', r) =
        call_contract e.calls v.call_address v.call_data (address_json e.session.address)
          (some (str v.call_value)) none s in
      (s', called e r v')
]

unfoldable pub code_found : Surroundings → Option Text → Contracts → Contracts
code_found e none v =
    add_log e.now information (codes "No hay contrato en esa dirección (null)")
      (record v { read_code = none; reading = false })
code_found e (some []) v =
    add_log e.now information (codes "No hay contrato en esa dirección (null)")
      (record v { read_code = some []; reading = false })
code_found e (some (c ∷ code)) v =
    add_log e.now success
      (codes "Bytecode encontrado: "
        ++ (print_bigint (pos (length (c ∷ code))) ++ codes " caracteres hex"))
      (record v { read_code = some (c ∷ code); reading = false })

-- `handleRead`, which does not throw either.
unfoldable pub handle_read : Surroundings → State → Contracts → State × Contracts
handle_read e s v =
    elim (refused_address (codes "Pega la dirección del contrato a inspeccionar") v.read_address) [
      | some m ↦ (s, add_log e.now failure m v)
      | none ↦
          let v' =
            add_log e.now information
              (codes "Leyendo bytecode de " ++ (take 14 v.read_address ++ codes "..."))
              (record v { reading = true; read_code = none }) in
          let (s', code) = get_code e.codes_of v.read_address s in (s', code_found e code v')
    ]
