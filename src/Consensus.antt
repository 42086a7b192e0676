-- ===== src/Consensus.antt =====
-- consensus/src: the pBFT protocol that agrees on a macro block.
pub mod State
pub mod Feed
pub mod Rounds
pub mod Votes
pub mod Invariant
pub mod Handlers
pub mod Advance
pub mod Receive
pub mod Total
pub mod Driver
pub mod Agreement
pub mod Committed
pub mod Elected
pub mod Replayed
