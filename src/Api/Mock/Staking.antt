-- ===== src/Api/Mock/Staking.antt =====
-- src/lib/protocol.ts: `STAKING_VALIDATORS`.
use resistance_network.Common.{true, false, List, [], ◌∷◌}
use resistance_network.Api.Data.{StakingValidator}

abbrev pub staking_validators : List StakingValidator
staking_validators =
    record {
      address = "rstn1qz4a2f8c9d";
      name = "Quantum-Node";
      stake = "2.4M";
      apy = "Variable";
      uptime = "99.98%";
      commission = "5%";
      shard = 12;
      delegated = true;
    }
    ∷ record {
      address = "rstn1qz9c1e7b3a";
      name = "RSTN-Validator";
      stake = "2.1M";
      apy = "Variable";
      uptime = "99.97%";
      commission = "7%";
      shard = 7;
      delegated = false;
    }
    ∷ record {
      address = "rstn1qz3d5f8a2c";
      name = "PostQuantum-Pool";
      stake = "1.9M";
      apy = "Variable";
      uptime = "99.99%";
      commission = "3%";
      shard = 24;
      delegated = false;
    }
    ∷ record {
      address = "rstn1qz7b9e1d4f";
      name = "ShardKeeper";
      stake = "1.7M";
      apy = "Variable";
      uptime = "99.95%";
      commission = "10%";
      shard = 45;
      delegated = false;
    }
    ∷ record {
      address = "rstn1qz2a8c6f3d";
      name = "Dilithium-Node";
      stake = "1.5M";
      apy = "Variable";
      uptime = "99.98%";
      commission = "5%";
      shard = 3;
      delegated = false;
    }
    ∷ []
