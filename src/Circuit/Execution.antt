-- ===== src/Circuit/Execution.antt =====
-- `ExecutionState::derive_from_outputs` of lee/privacy_preserving_circuit/src/execution_state.rs.
pub mod Windows
pub mod Conservation
use lp_0002_private_multisig.Prelude.{
  ℕ, zero, suc, ◌+◌, Option, none, some, List, [], ◌∷◌, ◌++◌, Bool, true, false, not, ◌||◌, Bytes,
  bytes_eq, contains, leb, ltb, length, ◌==◌, if◌then◌else◌, Result, ok, err, ◌>>=◌, ◌>>◌, ensure,
  ok_or,
}
use lp_0002_private_multisig.Prelude.HashMap
use lp_0002_private_multisig.Prelude.HashMap.{HashMap}
use lp_0002_private_multisig.Core.Account.{
  ProgramId, AccountId, Account, AccountWithMetadata, default_program_id, account_eq,
}
use lp_0002_private_multisig.Core.Circuit.{
  InputAccountIdentity, PdaKeys, npk_vpk_if_private_pda, is_private_pda,
}
use lp_0002_private_multisig.Core.Program.{ChainedCall, ProgramOutput, ValidityWindow, try_window}
use lp_0002_private_multisig.Core.Validation.{ExecutionValidationError, validate_execution}
use lp_0002_private_multisig.State.Checks.{option_eq}
use lp_0002_private_multisig.State.Types.{max_number_chained_calls}
use lp_0002_private_multisig.Circuit.Types.{
  CircuitPanic, empty_window, no_program_outputs, chained_calls_depth, insufficient_outputs,
  instruction_mismatch, unverified_output, self_program_mismatch, caller_program_mismatch,
  invalid_behavior, inner_call_without_chained_call, unbound_private_pda, modified_not_claimed,
  missing_post_state, Binding, get_position, ExecutionState, CircuitHost,
}
use lp_0002_private_multisig.Circuit.Sync.{validate_and_sync_states}

-- `private_pda_by_position`, from `position` on.
unfoldable pub keys_by_position :
    (Bytes → Bytes) → ℕ → List InputAccountIdentity → List (ℕ × PdaKeys)
keys_by_position sha256 position [] = []
keys_by_position sha256 position (identity ∷ identities) =
    let rest = keys_by_position sha256 (position + 1) identities in
    elim (npk_vpk_if_private_pda sha256 identity) [
      | none ↦ rest
      | some keys ↦ (position, keys) ∷ rest
    ]

-- `filter_map(..).max()` and `filter_map(..).min()`
unfoldable pub latest : List (Option ℕ) → Option ℕ
latest [] = none
latest (none ∷ starts) = latest starts
latest (some a ∷ starts) = elim (latest starts) [
  | none ↦ some a
  | some b ↦ some (if leb b a then a else b)
]

unfoldable pub earliest : List (Option ℕ) → Option ℕ
earliest [] = none
earliest (none ∷ ends) = earliest ends
earliest (some a ∷ ends) = elim (earliest ends) [
  | none ↦ some a
  | some b ↦ some (if leb a b then a else b)
]

abbrev pub starts_of : List ValidityWindow → List (Option ℕ)
starts_of [] = []
starts_of (w ∷ ws) = w.from ∷ starts_of ws

abbrev pub ends_of : List ValidityWindow → List (Option ℕ)
ends_of [] = []
ends_of (w ∷ ws) = w.to ∷ ends_of ws

-- The window of the whole execution; its emptiness panics.
unfoldable pub intersect_windows : List ValidityWindow → Result CircuitPanic ValidityWindow
intersect_windows ws = elim (try_window (latest (starts_of ws)) (earliest (ends_of ws))) [
  | ok w ↦ ok w
  | err invalid ↦ err empty_window
]

abbrev pub block_windows : List ProgramOutput → List ValidityWindow
block_windows [] = []
block_windows (o ∷ os) = o.block_validity_window ∷ block_windows os

abbrev pub timestamp_windows : List ProgramOutput → List ValidityWindow
timestamp_windows [] = []
timestamp_windows (o ∷ os) = o.timestamp_validity_window ∷ timestamp_windows os

-- A call, and the program that makes it.
abbrev pub QueuedCall : Type 0
QueuedCall = ChainedCall × Option ProgramId

unfoldable pub calls_of : ProgramId → List ChainedCall → List QueuedCall
calls_of caller [] = []
calls_of caller (call ∷ calls) = (call, some caller) ∷ calls_of caller calls

abbrev pub unwrap_validation :
    Result ExecutionValidationError (Unit {0}) → Result CircuitPanic (Unit {0})
unwrap_validation (ok u) = ok u
unwrap_validation (err e) = err (invalid_behavior e)

module _ (host : CircuitHost) (identities : List InputAccountIdentity) where
  -- The body of the loop, without the queue.
  unfoldable pub process_output :
      ExecutionState
      → ChainedCall
      → Option ProgramId
      → ProgramOutput
      → Result CircuitPanic ExecutionState
  process_output s call caller output = do
    ensure (bytes_eq call.instruction_data output.instruction_data) instruction_mismatch
    ensure (host.verify call.program_id output) unverified_output
    ensure (bytes_eq output.self_program_id call.program_id) self_program_mismatch
    ensure (option_eq output.caller_program_id caller) caller_program_mismatch
    unwrap_validation (validate_execution output.pre_states output.post_states call.program_id)
    validate_and_sync_states host.sha256 identities call.program_id caller call.pda_seeds s
        output.pre_states output.post_states

  -- The `while` loop, and the check after it that no output is left. `remaining` is
  -- `MAX_NUMBER_CHAINED_CALLS + 1 - chain_calls_counter`.
  unfoldable pub run_outputs :
      ℕ → List QueuedCall → List ProgramOutput → ExecutionState → Result CircuitPanic ExecutionState
  run_outputs remaining [] [] s = ok s
  run_outputs remaining [] (output ∷ outputs) s = err inner_call_without_chained_call
  run_outputs zero ((call, caller) ∷ queue) outputs s = err chained_calls_depth
  run_outputs (suc remaining) ((call, caller) ∷ queue) [] s = err insufficient_outputs
  run_outputs (suc remaining) ((call, caller) ∷ queue) (output ∷ outputs) s =
      process_output s call caller output >>= λ processed.
      run_outputs remaining (calls_of call.program_id output.chained_calls ++ queue) outputs
        processed

-- Every private PDA's keys are bound to its account.
unfoldable pub check_bound :
    List (ℕ × Binding) → ℕ → List InputAccountIdentity → Result CircuitPanic (Unit {0})
check_bound bound position [] = ok tt
check_bound bound position (identity ∷ identities) = do
  ensure
      (not (is_private_pda identity)
        || (elim (get_position bound position) [ none ↦ false | some b ↦ true ]))
      unbound_private_pda
  check_bound bound (position + 1) identities

-- A modified uninitialized account was claimed.
unfoldable pub check_one_claimed : Account → Account → Result CircuitPanic (Unit {0})
check_one_claimed pre post =
    ensure (account_eq pre post || not (bytes_eq post.program_owner default_program_id))
      modified_not_claimed

unfoldable pub check_all_claimed :
    HashMap Account → List AccountWithMetadata → Result CircuitPanic (Unit {0})
unfolding check_one_claimed
check_all_claimed posts [] = ok tt
check_all_claimed posts (pre ∷ pres) =
    (if bytes_eq pre.account.program_owner default_program_id
      then (ok_or (HashMap.get posts pre.account_id) missing_post_state
          >>= check_one_claimed pre.account)
      else ok tt)
    >> check_all_claimed posts pres

-- `program_outputs.first()`
abbrev pub first_output : List ProgramOutput → Option ProgramOutput
first_output [] = none
first_output (o ∷ os) = some o

abbrev pub initial_state : ValidityWindow → ValidityWindow → List (ℕ × PdaKeys) → ExecutionState
initial_state block timestamp keys = record {
  pre_states = [];
  post_states = [];
  block_validity_window = block;
  timestamp_validity_window = timestamp;
  private_pda_bound_positions = [];
  pda_family_binding = [];
  private_pda_by_position = keys;
  authorized_accounts = [];
}

abbrev pub initial_queue : ProgramId → ProgramOutput → List QueuedCall
initial_queue program_id first =
    (
      record {
        program_id = program_id;
        pre_states = first.pre_states;
        instruction_data = first.instruction_data;
        pda_seeds = [];
      },
      none,
    )
    ∷ []

module _ (host : CircuitHost) (identities : List InputAccountIdentity)
    (program_id : ProgramId) where
  unfoldable pub derive_from_outputs : List ProgramOutput → Result CircuitPanic ExecutionState
  derive_from_outputs outputs = do
    block ← intersect_windows (block_windows outputs)
    timestamp ← intersect_windows (timestamp_windows outputs)
    first ← ok_or (first_output outputs) no_program_outputs
    let start = initial_state block timestamp (keys_by_position host.sha256 0 identities)
    s ←
        run_outputs host identities (suc max_number_chained_calls) (initial_queue program_id first)
          outputs start
    check_bound s.private_pda_bound_positions 0 identities
    check_all_claimed s.post_states s.pre_states
    ok s
