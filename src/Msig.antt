-- ===== src/Msig.antt =====
-- The anonymous M-of-N multisig: the shared scheme (lez/programs/msig/core) and the guest program
-- (lee/state_machine/test_methods/guest/src/bin/msig.rs).
pub mod Scheme
pub mod Merkle
pub mod Guest
pub mod Layout
pub mod Proposal
pub mod Registry
pub mod Treasury
