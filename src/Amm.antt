-- ===== src/Amm.antt =====
-- The automated market maker, lez/programs/amm: pools and swaps.
pub mod Pool
pub mod Liquidity
pub mod Creation
pub mod Instructions
pub mod Swap
