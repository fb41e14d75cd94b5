-- ===== src/Api/Mock.antt =====
-- The fixed data of src/lib/protocol.ts that src/lib/api.ts serves without a node.
pub mod Blocks
pub mod Transactions
pub mod Validators
pub mod Staking
pub mod Governance
pub mod Stats
