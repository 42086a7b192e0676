-- ===== src/Tests.antt =====
-- The components at concrete inputs.
pub mod Network
pub mod Round
pub mod Protocol
pub mod Maps
pub mod Stakes
pub mod Prizes
pub mod Draws
pub mod Trees
pub mod Payments
pub mod Pools
pub mod ViewChanges
pub mod Slashings
pub mod Histories
