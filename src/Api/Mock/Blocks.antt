-- ===== src/Api/Mock/Blocks.antt =====
-- src/lib/protocol.ts: `MOCK_BLOCKS`.
use resistance_network.Common.{List, [], ◌∷◌}
use resistance_network.Api.Data.{Block}

abbrev pub mock_blocks : List Block
mock_blocks =
    record {
      height = 8471203;
      hash = "0x7f3a9b2c4e8d1f6a";
      validator = "rstn-val-0042";
      tx_count = 182;
      size = "1.24 MB";
      age = "2s";
      gas_used = "12.4M";
      gas_limit = "30M";
      shard = 12;
    }
    ∷ record {
      height = 8471202;
      hash = "0x3c8e1d5a7b9f0024";
      validator = "rstn-val-0188";
      tx_count = 94;
      size = "0.82 MB";
      age = "2s";
      gas_used = "6.1M";
      gas_limit = "30M";
      shard = 7;
    }
    ∷ record {
      height = 8471201;
      hash = "0xa1b2c3d4e5f60081";
      validator = "rstn-val-0291";
      tx_count = 156;
      size = "1.05 MB";
      age = "2s";
      gas_used = "9.8M";
      gas_limit = "30M";
      shard = 24;
    }
    ∷ record {
      height = 8471200;
      hash = "0xf0e1d2c3b4a50072";
      validator = "rstn-val-0103";
      tx_count = 203;
      size = "1.38 MB";
      age = "2s";
      gas_used = "14.2M";
      gas_limit = "30M";
      shard = 45;
    }
    ∷ record {
      height = 8471199;
      hash = "0x9a8b7c6d5e4f0063";
      validator = "rstn-val-0367";
      tx_count = 67;
      size = "0.61 MB";
      age = "2s";
      gas_used = "4.2M";
      gas_limit = "30M";
      shard = 3;
    }
    ∷ record {
      height = 8471198;
      hash = "0x1234567890ab0054";
      validator = "rstn-val-0214";
      tx_count = 118;
      size = "0.94 MB";
      age = "2s";
      gas_used = "7.7M";
      gas_limit = "30M";
      shard = 18;
    }
    ∷ record {
      height = 8471197;
      hash = "0x5678abcdef010045";
      validator = "rstn-val-0489";
      tx_count = 245;
      size = "1.52 MB";
      age = "2s";
      gas_used = "16.8M";
      gas_limit = "30M";
      shard = 56;
    }
    ∷ record {
      height = 8471196;
      hash = "0xabcdef1234560036";
      validator = "rstn-val-0067";
      tx_count = 89;
      size = "0.73 MB";
      age = "2s";
      gas_used = "5.5M";
      gas_limit = "30M";
      shard = 31;
    }
    ∷ record {
      height = 8471195;
      hash = "0x9876543210fe0027";
      validator = "rstn-val-0152";
      tx_count = 134;
      size = "0.98 MB";
      age = "2s";
      gas_used = "8.4M";
      gas_limit = "30M";
      shard = 9;
    }
    ∷ record {
      height = 8471194;
      hash = "0x0fedcba987650018";
      validator = "rstn-val-0333";
      tx_count = 167;
      size = "1.12 MB";
      age = "2s";
      gas_used = "10.6M";
      gas_limit = "30M";
      shard = 42;
    }
    ∷ []
