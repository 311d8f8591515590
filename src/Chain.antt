-- ===== src/Chain.antt =====
-- Blocks, their transactions, and the chain that they make: lez/common/src/block.rs and transaction.rs,
-- and the crate lez/chain_state.
pub mod Types
pub mod Transactions
pub mod Blocks
pub mod Tiers
pub mod Head
pub mod Finality
pub mod Replays
pub mod Consistency
pub mod Finalization
pub mod Events
pub mod Adoption
pub mod Irreversible
