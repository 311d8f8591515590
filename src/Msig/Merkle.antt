-- ===== src/Msig/Merkle.antt =====
-- The member tree of Msig.Scheme: levels and paths.
pub mod Levels
pub mod Completeness
pub mod Soundness
