-- ===== src/Circuit.antt =====
-- The privacy preserving circuit, lee/privacy_preserving_circuit/src: the state of an execution that is
-- derived from the outputs of its programs, and the output that the circuit commits.
pub mod Types
pub mod Bindings
pub mod Sync
pub mod Execution
pub mod Emit
pub mod Obfuscation
pub mod Output
