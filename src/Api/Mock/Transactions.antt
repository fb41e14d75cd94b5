-- ===== src/Api/Mock/Transactions.antt =====
-- src/lib/protocol.ts: `MOCK_TXS`.
use resistance_network.Common.{List, [], ◌∷◌}
use resistance_network.Api.Data.{Transaction}

abbrev pub mock_txs : List Transaction
mock_txs =
    record {
      hash = "0x3b8c7d2e1f9a0042";
      sender = "rstn1qz4a2f";
      recipient = "rstn1q9c1e8";
      value = "1,250.0";
      kind = "Transfer";
      status = "success";
      block = 8471203;
      fee = "0.00021";
      shard = 12;
    }
    ∷ record {
      hash = "0x7a9b3c4d5e6f0084";
      sender = "rstn1qz2b3c4";
      recipient = "rstn1qz5d6e7";
      value = "32,000.0";
      kind = "Stake";
      status = "success";
      block = 8471203;
      fee = "0.00018";
      shard = 12;
    }
    ∷ record {
      hash = "0x1c2d3e4f5a6b0096";
      sender = "rstn1q8f9a0b";
      recipient = "rstn1qz1c2d3";
      value = "0.0";
      kind = "Contract";
      status = "success";
      block = 8471202;
      fee = "0.00045";
      shard = 7;
    }
    ∷ record {
      hash = "0x5e6f7a8b9c0d0018";
      sender = "rstn1qz3e4f5";
      recipient = "rstn1q6a7b8c";
      value = "450.0";
      kind = "Transfer";
      status = "success";
      block = 8471202;
      fee = "0.00021";
      shard = 7;
    }
    ∷ record {
      hash = "0x9a0b1c2d3e4f0027";
      sender = "rstn1q4d5e6f";
      recipient = "rstn1qz9a0b1";
      value = "8,900.0";
      kind = "Delegate";
      status = "success";
      block = 8471201;
      fee = "0.00019";
      shard = 24;
    }
    ∷ record {
      hash = "0x2d3e4f5a6b7c0035";
      sender = "rstn1q7e8f9a";
      recipient = "rstn1qz2b3c4";
      value = "0.0";
      kind = "Contract";
      status = "failed";
      block = 8471201;
      fee = "0.00052";
      shard = 24;
    }
    ∷ record {
      hash = "0x6b7c8d9e0f1a0048";
      sender = "rstn1qz1a2b3";
      recipient = "rstn1q5c6d7e";
      value = "12,500.0";
      kind = "Transfer";
      status = "success";
      block = 8471200;
      fee = "0.00021";
      shard = 45;
    }
    ∷ record {
      hash = "0x0f1a2b3c4d5e0059";
      sender = "rstn1q9e0f1a";
      recipient = "rstn1qz8b9c0";
      value = "0.0";
      kind = "Governance";
      status = "success";
      block = 8471200;
      fee = "0.00033";
      shard = 45;
    }
    ∷ record {
      hash = "0x4d5e6f7a8b9c0063";
      sender = "rstn1q2c3d4e";
      recipient = "rstn1q7f8a9b";
      value = "3,200.0";
      kind = "Transfer";
      status = "success";
      block = 8471199;
      fee = "0.00021";
      shard = 3;
    }
    ∷ record {
      hash = "0x8b9c0d1e2f3a0074";
      sender = "rstn1qz6d7e8";
      recipient = "rstn1q3a4b5c";
      value = "0.0";
      kind = "Contract";
      status = "success";
      block = 8471199;
      fee = "0.00041";
      shard = 3;
    }
    ∷ record {
      hash = "0xc3d4e5f6a7b80085";
      sender = "rstn1q5e6f7a";
      recipient = "rstn1qz9d0e1";
      value = "67,000.0";
      kind = "Unstake";
      status = "success";
      block = 8471198;
      fee = "0.00019";
      shard = 18;
    }
    ∷ record {
      hash = "0x1e2f3a4b5c6d0097";
      sender = "rstn1q8a9b0c";
      recipient = "rstn1qz4f5a6";
      value = "780.0";
      kind = "Transfer";
      status = "success";
      block = 8471198;
      fee = "0.00021";
      shard = 18;
    }
    ∷ []
