-- ===== src/Redemption.antt =====
-- contracts/redemption_vault/src/lib.rs: batched redemption of one RWA with its issuer, paid in one
-- stable.
pub mod Types
pub mod Batches
pub mod Outside
pub mod State
pub mod Holders
pub mod Calls
pub mod Sending
pub mod Settling
pub mod Admin
pub mod Machine
pub mod Tallies
pub mod Holding
pub mod Leaving
pub mod Returning
pub mod Valid
pub mod Changes
pub mod Keeps
pub mod Entry
pub mod Refinement
pub mod Lifetime
pub mod Payouts
pub mod Floor
mod Tests
