-- ===== src/Runs.antt =====
-- The definitions at concrete inputs, and the theorems applied to them.
pub mod Signing
pub mod Network
pub mod Pages
pub mod Stores
pub mod Extension
pub mod Views
