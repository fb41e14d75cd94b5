-- ===== src/Views.antt =====
-- The logic of the pages in src/components/views: what their handlers do and what they show.
pub mod Monitoring
pub mod Faucet
pub mod Number
pub mod Simulator
pub mod Messages
pub mod BridgePanel
pub mod Contracts
pub mod Staking
pub mod Explorer
