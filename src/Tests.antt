-- ===== src/Tests.antt =====
-- Runs of the model on one small world, and the theorems applied to it.
pub mod Counters
pub mod World
pub mod Moves
pub mod Trades
pub mod Vaults
pub mod Parties
pub mod Grants
pub mod Purses
pub mod Deals
pub mod Strips
pub mod Levels
