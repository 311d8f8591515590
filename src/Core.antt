-- ===== src/Core.antt =====
-- The crate `lee_core` (lee/state_machine/core): accounts, key and address derivation, and what a
-- program returns to the state machine.
pub mod Account
pub mod Keys
pub mod Commitments
pub mod Circuit
pub mod Encoding
pub mod Encryption
pub mod Program
pub mod Balances
pub mod Validation
