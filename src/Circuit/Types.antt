-- ===== src/Circuit/Types.antt =====
-- The state of an execution (execution_state.rs), and the panics of the circuit.
use lp_0002_private_multisig.Prelude.{
  ℕ, Option, none, some, List, [], ◌∷◌, Bool, ◌&&◌, Bytes, bytes_eq, ◌==◌, if◌then◌else◌,
}
use lp_0002_private_multisig.Prelude.HashMap.{HashMap}
use lp_0002_private_multisig.Core.Account.{ProgramId, AccountId, Account, AccountWithMetadata}
use lp_0002_private_multisig.Core.Circuit.{PdaKeys}
use lp_0002_private_multisig.Core.Program.{ProgramOutput, ValidityWindow}
use lp_0002_private_multisig.Core.Validation.{ExecutionValidationError}

pub data CircuitPanic : Type 0 where
  empty_window no_program_outputs chained_calls_depth insufficient_outputs : CircuitPanic
  instruction_mismatch unverified_output self_program_mismatch caller_program_mismatch :
      CircuitPanic
  invalid_behavior : ExecutionValidationError → CircuitPanic
  inner_call_without_chained_call unbound_private_pda modified_not_claimed : CircuitPanic
  inconsistent_pre_state missing_pre_state missing_post_state inconsistent_authorization :
      CircuitPanic
  external_seed_mismatch external_seed_authorized conflicting_binding : CircuitPanic
  two_accounts_one_seed claim_initialized index_out_of_range claim_unauthorized : CircuitPanic
  public_pda_mismatch private_pda_mismatch missing_npk : CircuitPanic
  identities_length account_id_mismatch not_authorized not_default : CircuitPanic
  pda_authorization missing_seed : CircuitPanic

-- `(ProgramId, PdaSeed)`
abbrev pub Binding : Type 0
Binding = ProgramId × Bytes

abbrev pub binding_eq : Binding → Binding → Bool
binding_eq a b = bytes_eq a.0 b.0 && bytes_eq a.1 b.1

-- A `HashMap<usize, V>`, and `HashMap<(ProgramId, PdaSeed), AccountId>`; entries are only added where
-- there is none.
unfoldable pub get_position {ℓ} : {V : Type ℓ} → List (ℕ × V) → ℕ → Option V
get_position [] position = none
get_position ((p, v) ∷ m) position = if p == position then some v else get_position m position

unfoldable pub get_family : List (Binding × AccountId) → Binding → Option AccountId
get_family [] b = none
get_family ((c, id) ∷ m) b = if binding_eq c b then some id else get_family m b

pub record ExecutionState : Type 0 where
  pub pre_states : List AccountWithMetadata
  pub post_states : HashMap Account
  pub block_validity_window : ValidityWindow
  pub timestamp_validity_window : ValidityWindow
  pub private_pda_bound_positions : List (ℕ × Binding)
  pub pda_family_binding : List (Binding × AccountId)
  pub private_pda_by_position : List (ℕ × PdaKeys)
  pub authorized_accounts : List AccountId

-- What the circuit calls and does not implement: SHA-256, the verification of a program's receipt
-- (`env::verify`: the circuit's own receipt is only valid if the program committed to the output),
-- ML-KEM, and the ChaCha20 keystream.
pub record CircuitHost : Type 0 where
  pub sha256 : Bytes → Bytes
  pub verify : ProgramId → ProgramOutput → Bool
  pub encapsulate_deterministic : (vpk esk : Bytes) → Bytes × Bytes
  pub apply_keystream : Bytes → Bytes → Bytes
