-- ===== src/Rfq.antt =====
-- contracts/rfq: the settlement contract, a module for each of its source's parts, and below them
-- the modules that prove what it promises.
pub mod Types
pub mod Storage
pub mod Hash
pub mod Price
pub mod Checks
pub mod Tokens
pub mod Orders
pub mod Listings
pub mod Admin
pub mod Settles
pub mod Guards
pub mod Measured
pub mod Books
pub mod Agreement
pub mod Fill
pub mod Dutch
pub mod Sales
pub mod Creation
pub mod Frames
pub mod Steps
pub mod Effects
pub mod Lifetime
pub mod Totals
pub mod Example
pub mod Tests
pub mod LifeTests
pub mod PushTests
pub mod Quotes
pub mod Pushes
pub mod Shifts
