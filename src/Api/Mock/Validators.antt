-- ===== src/Api/Mock/Validators.antt =====
-- src/lib/protocol.ts: `MOCK_VALIDATORS`.
use resistance_network.Common.{List, [], ◌∷◌}
use resistance_network.Api.Data.{Validator}

abbrev pub mock_validators : List Validator
mock_validators =
    record {
      rank = 1;
      address = "rstn1qz4a2f8c9d";
      stake = "2.4M";
      blocks_produced = 12482;
      uptime = "99.98%";
      commission = "5%";
      status = "active";
      shard = 12;
    }
    ∷ record {
      rank = 2;
      address = "rstn1qz9c1e7b3a";
      stake = "2.1M";
      blocks_produced = 11987;
      uptime = "99.97%";
      commission = "7%";
      status = "active";
      shard = 7;
    }
    ∷ record {
      rank = 3;
      address = "rstn1qz3d5f8a2c";
      stake = "1.9M";
      blocks_produced = 11023;
      uptime = "99.99%";
      commission = "3%";
      status = "active";
      shard = 24;
    }
    ∷ record {
      rank = 4;
      address = "rstn1qz7b9e1d4f";
      stake = "1.7M";
      blocks_produced = 9847;
      uptime = "99.95%";
      commission = "10%";
      status = "active";
      shard = 45;
    }
    ∷ record {
      rank = 5;
      address = "rstn1qz2a8c6f3d";
      stake = "1.5M";
      blocks_produced = 8901;
      uptime = "99.98%";
      commission = "5%";
      status = "active";
      shard = 3;
    }
    ∷ record {
      rank = 6;
      address = "rstn1qz5e1b9c7a";
      stake = "1.3M";
      blocks_produced = 7623;
      uptime = "99.96%";
      commission = "8%";
      status = "active";
      shard = 18;
    }
    ∷ record {
      rank = 7;
      address = "rstn1qz8d3f5a2e";
      stake = "1.1M";
      blocks_produced = 6890;
      uptime = "99.94%";
      commission = "6%";
      status = "active";
      shard = 56;
    }
    ∷ record {
      rank = 8;
      address = "rstn1qz1c7b4e9f";
      stake = "985K";
      blocks_produced = 5432;
      uptime = "99.97%";
      commission = "4%";
      status = "active";
      shard = 31;
    }
    ∷ record {
      rank = 9;
      address = "rstn1qz6f2a8d3c";
      stake = "870K";
      blocks_produced = 4128;
      uptime = "99.92%";
      commission = "9%";
      status = "active";
      shard = 9;
    }
    ∷ record {
      rank = 10;
      address = "rstn1qz9a4e7b1f";
      stake = "760K";
      blocks_produced = 3876;
      uptime = "99.95%";
      commission = "5%";
      status = "active";
      shard = 42;
    }
    ∷ []
