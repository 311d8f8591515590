-- ===== src/State.antt =====
-- The crate `lee` (lee/state_machine/src): the state, the validation of transactions, and how a
-- validated diff is applied.
pub mod Types
pub mod Apply
pub mod Totals
pub mod Checks
pub mod Public
pub mod Private
pub mod History
pub mod Genesis
pub mod Indexed
pub mod Membership
