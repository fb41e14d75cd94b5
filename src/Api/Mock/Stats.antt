-- ===== src/Api/Mock/Stats.antt =====
-- src/lib/protocol.ts: `NETWORK_STATS`, `EXPLORER_STATS`, `WALLET_PORTFOLIO` and `TX_TYPE_COLORS`.
use resistance_network.Common.{String, List, [], ◌∷◌}
use resistance_network.Api.Data.{NetworkStats, ExplorerStats, WalletPortfolio}

abbrev pub network_stats : NetworkStats
network_stats = record {
  tps = 250000;
  finality = "0.4s";
  block_time = "200ms";
  latency = "12ms";
  validators = 4128;
  nodes = 18947;
  quantum_security = "256-bit";
  signature_scheme =
      "CRYSTAL-Dilithium3 (NIST FIPS 204, ML-DSA-65) — híbrido Ed25519 diseñado, no cableado";
  hash_function = "SHA-3 / Keccak-512";
  vrf_scheme = "Lattice-based VRF (Module-LWE)";
  transport =
      "libp2p Noise (X25519) + PQ wire-level para streams directos (Kyber768/Dilithium3) — broadcast gossipsub PQ pendiente (A1)";
  zk_proof_system = "zk-STARK (hash-based, PQ-resistente)";
  dkg_scheme =
      "Threshold encryption (DKG de producción en roadmap — actualmente PRNG determinístico)";
  light_client_accumulator = "Merkle Mountain Ranges (Keccak-512)";
  shard_count = 64;
  shard_size = "2,048 TPS / shard";
  storage = "2.4 PB (proyección mainnet)";
  uptime = "99.998% (objetivo mainnet)";
  energy_efficiency = "0.0001 kWh/tx";
  tx_cost = "$0.0002";
  pq_coverage =
      "Firmas: 100% (Dilithium3) · Streams directos: PQ wire-level · Broadcast gossipsub: pendiente";
  genesis_date = "Q2 2028";
  token = "RSTN";
  max_supply = "1,000,000,000";
}

abbrev pub explorer_stats : ExplorerStats
explorer_stats = record {
  block_height = 8471203;
  avg_block_time = "0.4s";
  tps = 18456;
  tps_target = 250000;
  active_validators = 4128;
  pending_txs = 1284;
  avg_fee = "0.0002 RSTN";
  total_tx_count = "1.84B";
  shard_count = 64;
}

abbrev pub wallet_portfolio : WalletPortfolio
wallet_portfolio = record {
  address = "rstn1qz4a2f8c9d3e7b";
  balance = "48,250.5";
  staked = "32,000.0";
  delegated = "16,000.0";
  rewards = "412.5";
  apy = "Variable";
  pending_rewards = "18.3";
}

abbrev pub tx_type_colors : List (String × String)
tx_type_colors =
    ("Transfer", "hsl(150 100% 45%)")
    ∷ ("Stake", "hsl(150 100% 45%)")
    ∷ ("Unstake", "hsl(150 60% 40%)")
    ∷ ("Delegate", "hsl(150 100% 55%)")
    ∷ ("Contract", "hsl(150 70% 50%)")
    ∷ ("Governance", "hsl(150 100% 55%)")
    ∷ []
