-- ===== src/Api/Data.antt =====
-- src/lib/api.ts: the types of the data that the interface serves. Texts are compared whole.
use resistance_network.Common.{ℕ, String, Bool}

pub record Block : Type 0 where
  pub height : ℕ
  pub hash : String
  pub validator : String
  pub tx_count : ℕ
  pub size : String
  pub age : String
  pub gas_used : String
  pub gas_limit : String
  pub shard : ℕ

pub record Transaction : Type 0 where
  pub hash : String
  pub sender : String
  pub recipient : String
  pub value : String
  pub kind : String
  pub status : String
  pub block : ℕ
  pub fee : String
  pub shard : ℕ

pub record Validator : Type 0 where
  pub rank : ℕ
  pub address : String
  pub stake : String
  pub blocks_produced : ℕ
  pub uptime : String
  pub commission : String
  pub status : String
  pub shard : ℕ

pub record StakingValidator : Type 0 where
  pub address : String
  pub name : String
  pub stake : String
  pub apy : String
  pub uptime : String
  pub commission : String
  pub shard : ℕ
  pub delegated : Bool

pub record GovernanceProposal : Type 0 where
  pub id : String
  pub title : String
  pub status : String
  pub votes_for : ℕ
  pub votes_against : ℕ
  pub turnout : String
  pub ends_in : String
  pub description : String

pub record NetworkStats : Type 0 where
  pub tps : ℕ
  pub finality : String
  pub block_time : String
  pub latency : String
  pub validators : ℕ
  pub nodes : ℕ
  pub quantum_security : String
  pub signature_scheme : String
  pub hash_function : String
  pub vrf_scheme : String
  pub transport : String
  pub zk_proof_system : String
  pub dkg_scheme : String
  pub light_client_accumulator : String
  pub shard_count : ℕ
  pub shard_size : String
  pub storage : String
  pub uptime : String
  pub energy_efficiency : String
  pub tx_cost : String
  pub pq_coverage : String
  pub genesis_date : String
  pub token : String
  pub max_supply : String

pub record ExplorerStats : Type 0 where
  pub block_height : ℕ
  pub avg_block_time : String
  pub tps : ℕ
  pub tps_target : ℕ
  pub active_validators : ℕ
  pub pending_txs : ℕ
  pub avg_fee : String
  pub total_tx_count : String
  pub shard_count : ℕ

pub record WalletPortfolio : Type 0 where
  pub address : String
  pub balance : String
  pub staked : String
  pub delegated : String
  pub rewards : String
  pub apy : String
  pub pending_rewards : String
