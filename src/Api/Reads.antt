-- ===== src/Api/Reads.antt =====
-- src/lib/api.ts: the operations of `api` that read. Each answers from the node where the mode says so,
-- and from fixed data otherwise or when the call fails. A limit that the caller leaves out is the
-- default of the source, which the caller of the model writes.
use resistance_network.Common.{
  ℕ, String, Bool, false, List, [], ◌∷◌, Text, codes, text_eq, ◌==◌, find, if◌then◌else◌, Option,
  none, some,
}
use resistance_network.Json.{
  Json, Decimal, num, str, obj, Fields, end, field, whole, Request, Reply,
}
use resistance_network.Api.{State, rpc_call_with_fallback}
use resistance_network.Api.Data.{
  NetworkStats, ExplorerStats, Block, Transaction, Validator, WalletPortfolio, StakingValidator,
  GovernanceProposal,
}
use resistance_network.Api.Mock.Blocks.{mock_blocks}
use resistance_network.Api.Mock.Transactions.{mock_txs}
use resistance_network.Api.Mock.Validators.{mock_validators}
use resistance_network.Api.Mock.Staking.{staking_validators}
use resistance_network.Api.Mock.Governance.{governance_proposals}
use resistance_network.Api.Mock.Stats.{
  network_stats, explorer_stats, wallet_portfolio, tx_type_colors,
}

-- The two paths of a read.
unfoldable pub read {ℓ} :
    {A : Type ℓ} → (Request → Reply A) → Text → List Json → A → A → State → State × A
read net method params fallback mock s =
    if s.rpc_mode then rpc_call_with_fallback net method params fallback s else (s, mock)

unfoldable pub get_network_stats : (Request → Reply NetworkStats) → State → State × NetworkStats
get_network_stats net s = read net (codes "rstn_getNetworkStats") [] network_stats network_stats s

unfoldable pub get_explorer_stats : (Request → Reply ExplorerStats) → State → State × ExplorerStats
get_explorer_stats net s =
    read net (codes "rstn_getExplorerStats") [] explorer_stats explorer_stats s

unfoldable pub get_latest_blocks :
    (Request → Reply (List Block)) → Decimal → State → State × List Block
get_latest_blocks net limit s =
    read net (codes "rstn_getLatestBlocks") (num limit ∷ []) mock_blocks mock_blocks s

-- The first block of a list with the height.
abbrev pub find_block : ℕ → List Block → Option Block
find_block height blocks = find (λ b. b.height == height) blocks

unfoldable pub get_block_by_height :
    (Request → Reply (Option Block)) → ℕ → State → State × Option Block
get_block_by_height net height s =
    read net (codes "rstn_getBlockByHeight") (whole height ∷ []) none
      (find_block height mock_blocks) s

unfoldable pub get_latest_transactions :
    (Request → Reply (List Transaction)) → Decimal → State → State × List Transaction
get_latest_transactions net limit s =
    read net (codes "rstn_getLatestTransactions") (num limit ∷ []) mock_txs mock_txs s

abbrev pub find_transaction : Text → List Transaction → Option Transaction
find_transaction hash txs = find (λ t. text_eq (codes t.hash) hash) txs

unfoldable pub get_transaction_by_hash :
    (Request → Reply (Option Transaction)) → Text → State → State × Option Transaction
get_transaction_by_hash net hash s =
    read net (codes "rstn_getTransactionByHash") (str hash ∷ []) none
      (find_transaction hash mock_txs) s

unfoldable pub get_top_validators :
    (Request → Reply (List Validator)) → Decimal → State → State × List Validator
get_top_validators net limit s =
    read net (codes "rstn_getTopValidators") (num limit ∷ []) mock_validators mock_validators s

unfoldable pub get_wallet_portfolio :
    (Request → Reply WalletPortfolio) → Text → State → State × WalletPortfolio
get_wallet_portfolio net address s =
    read net (codes "rstn_getBalance") (str address ∷ []) wallet_portfolio wallet_portfolio s

unfoldable pub get_staking_validators :
    (Request → Reply (List StakingValidator)) → State → State × List StakingValidator
get_staking_validators net s =
    read net (codes "rstn_getStakingValidators") [] staking_validators staking_validators s

unfoldable pub get_governance_proposals :
    (Request → Reply (List GovernanceProposal)) → State → State × List GovernanceProposal
get_governance_proposals net s =
    read net (codes "rstn_getProposals") [] governance_proposals governance_proposals s

abbrev pub get_tx_type_colors : List (String × String)
get_tx_type_colors = tx_type_colors

pub record StakingInfo : Type 0 where
  pub address : Text
  pub balance : String
  pub staked : String
  pub delegated : String
  pub rewards : String
  pub pending_rewards : String
  pub apy : String
  pub total_network_staked : String
  pub active_validators : ℕ

abbrev pub mock_staking_info : Text → StakingInfo
mock_staking_info address = record {
  address = address;
  balance = "1250.00";
  staked = "5000.00";
  delegated = "2000.00";
  rewards = "12.50";
  pending_rewards = "12.50";
  apy = "8.42%";
  total_network_staked = "412800000";
  active_validators = 128;
}

unfoldable pub get_staking_info : (Request → Reply StakingInfo) → Text → State → State × StakingInfo
get_staking_info net address s =
    read net (codes "rstn_getStakingInfo") (obj (field (codes "address") (str address) end) ∷ [])
      (mock_staking_info address) (mock_staking_info address) s

pub record ChainReserve : Type 0 where
  pub chain : String
  pub locked : String
  pub minted : String
  pub burned : String

abbrev pub no_reserve : String → ChainReserve
no_reserve chain = record { chain = chain; locked = "0"; minted = "0"; burned = "0" }

unfoldable pub get_bridge_reserves :
    (Request → Reply (List ChainReserve)) → State → State × List ChainReserve
get_bridge_reserves net s =
    read net (codes "rstn_getBridgeReserves") [] []
      (no_reserve "Bitcoin" ∷ no_reserve "Ethereum" ∷ no_reserve "Solana" ∷ []) s

unfoldable pub get_code : (Request → Reply (Option Text)) → Text → State → State × Option Text
get_code net address s = read net (codes "rstn_getCode") (str address ∷ []) none none s

pub record ContractCallResult : Type 0 where
  pub success : Bool
  pub gas_used : ℕ
  pub output : Text
  pub error : Option Text

abbrev pub mock_call : ContractCallResult
mock_call = record {
  success = false;
  gas_used = 0;
  output = codes "0x";
  error = some (codes "mock");
}

-- A property whose value is `undefined` is not written.
abbrev pub optional : Text → Option Json → Fields → Fields
optional name none fields = fields
optional name (some v) fields = field name v fields

unfoldable pub call_contract :
    (Request → Reply ContractCallResult)
    → Text
    → Text
    → Option Json
    → Option Json
    → Option Json
    → State
    → State × ContractCallResult
call_contract net to input from value gas s =
    read net (codes "rstn_call")
      (obj (
          field (codes "to") (str to) (
            field (codes "data") (str input) (
              optional (codes "from") from
                (optional (codes "value") value (optional (codes "gas") gas end)))))
        ∷ [])
      mock_call mock_call s

-- A result with the one field `address`, which is carried as that field.
unfoldable pub get_contract_address : (Request → Reply Text) → Text → Decimal → State → State × Text
get_contract_address net from nonce s =
    read net (codes "rstn_getContractAddress")
      (obj (field (codes "from") (str from) (field (codes "nonce") (num nonce) end)) ∷ [])
      (codes "rstn1mock") (codes "rstn1mock") s
