-- ===== src/Crosschain.antt =====
-- contracts/crosschain_settle/src: fills whose payment comes from another chain.
pub mod Wire
pub mod Layout
pub mod RoundTrip
pub mod Types
pub mod State
pub mod Transport
pub mod Taker
pub mod Maker
pub mod Funds
pub mod Admin
pub mod Entry
pub mod Moves
pub mod Steps
pub mod Receives
pub mod Once
mod Tests
