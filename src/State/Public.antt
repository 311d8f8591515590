-- ===== src/State/Public.antt =====
-- `ValidatedStateDiff::from_public_transaction` of validated_state_diff/mod.rs.
pub mod Diff
pub mod Round
pub mod Conservation
pub mod Replay
use lp_0002_private_multisig.Prelude.{
  ℕ, zero, suc, ◌+◌, Bool, true, false, not, ◌&&◌, ◌||◌, Option, none, some, List, [], ◌∷◌, ◌++◌,
  Bytes, bytes_eq, contains, n_unique, length, ◌==◌, if◌then◌else◌, Result, ok, err, ◌>>=◌, ◌>>◌,
  ensure, ok_or,
}
use lp_0002_private_multisig.Prelude.HashMap
use lp_0002_private_multisig.Prelude.HashMap.{HashMap}
use lp_0002_private_multisig.Core.Account.{
  ProgramId, AccountId, Account, AccountWithMetadata, default_program_id, account_eq,
}
use lp_0002_private_multisig.Core.Keys.{for_public_pda}
use lp_0002_private_multisig.Core.Program.{
  ChainedCall, Claim, AccountPostState, ProgramOutput, compute_public_authorized_pdas, is_valid_for,
}
use lp_0002_private_multisig.Core.Validation.{ExecutionValidationError, validate_execution}
use lp_0002_private_multisig.State.Types.{
  LeeError, InvalidInput, InvalidProgramBehavior, invalid_input, invalid_program_behavior,
  max_chained_calls_depth_exceeded, out_of_validity_window, V03State, StateDiff, PublicTransaction,
  Host, account_or_default, get_account_by_id, lookup_account, signer_account_ids, all_valid,
  max_number_chained_calls,
}
use lp_0002_private_multisig.State.Checks.{
  CallerData, behavior, check_nonces, authenticate_public_transaction_signers, expected_pre,
  check_pre_states, option_eq, map_err, check_claim, apply_claim, apply_claims, update_diff,
  authorized_ids, Call, with_caller, input_pre_states,
}

module _ (host : Host) (state : V03State) (block_id timestamp : ℕ) where
  -- The checks on a program's output, in the order of the loop's body, and the diff with its posts.
  unfoldable pub check_output :
      ChainedCall → CallerData → ProgramOutput → HashMap Account → Result LeeError (HashMap Account)
  check_output call caller output diff = do
    let pdas = compute_public_authorized_pdas host.sha256 caller.program_id call.pda_seeds
    check_pre_states state.public_state diff pdas caller.authorized_accounts output.pre_states
    ensure (bytes_eq output.self_program_id call.program_id)
        (behavior InvalidProgramBehavior.mismatched_program_id)
    ensure (option_eq output.caller_program_id caller.program_id)
        (behavior InvalidProgramBehavior.mismatched_caller_program_id)
    map_err (validate_execution output.pre_states output.post_states call.program_id)
    ensure
        (is_valid_for output.block_validity_window block_id
          && is_valid_for output.timestamp_validity_window timestamp)
        out_of_validity_window
    posts ← apply_claims host.sha256 call.program_id output.pre_states output.post_states
    ok (update_diff diff output.pre_states posts)

  -- The calls that go to the front of the queue.
  abbrev pub next_calls : ChainedCall → CallerData → ProgramOutput → List Call
  next_calls call caller output =
      with_caller
        (record {
          program_id = some call.program_id;
          authorized_accounts = caller.authorized_accounts ++ authorized_ids output.pre_states;
        })
        output.chained_calls

  -- The body of the loop: the new diff and the calls that go to the front of the queue.
  unfoldable pub process_call :
      ChainedCall → CallerData → HashMap Account → Result LeeError (HashMap Account × List Call)
  process_call call caller diff = do
    program ←
        ok_or (HashMap.get state.programs call.program_id)
          (invalid_input InvalidInput.unknown_program)
    output ← host.execute program caller.program_id call.pre_states call.instruction_data
    new_diff ← check_output call caller output diff
    ok (new_diff, next_calls call caller output)

  -- The `while` loop. `remaining` is `MAX_NUMBER_CHAINED_CALLS + 1 - chain_calls_counter`, so that the
  -- guard `chain_calls_counter <= MAX_NUMBER_CHAINED_CALLS` is `0 < remaining`: the loop ends.
  unfoldable pub run_calls : ℕ → List Call → HashMap Account → Result LeeError (HashMap Account)
  run_calls remaining [] diff = ok diff
  run_calls zero ((call, caller) ∷ queue) diff = err max_chained_calls_depth_exceeded
  run_calls (suc remaining) ((call, caller) ∷ queue) diff =
      process_call call caller diff >>= λ (new_diff, calls).
      run_calls remaining (calls ++ queue) new_diff

  -- The loop over the diff: a modified uninitialized account must have been claimed.
  unfoldable pub check_claimed : HashMap Account → Result LeeError (Unit {0})
  check_claimed [] = ok tt
  check_claimed ((id, post) ∷ diff) = do
    let pre = get_account_by_id state id
    ensure
        (not (bytes_eq pre.program_owner default_program_id)
          || account_eq pre post
          || not (bytes_eq post.program_owner default_program_id))
        (behavior (InvalidProgramBehavior.default_account_modified_without_claim id))
    check_claimed diff

  unfoldable pub check_declared : HashMap Account → List AccountId → Result LeeError (Unit {0})
  check_declared diff [] = ok tt
  check_declared diff (id ∷ ids) = do
    ensure (HashMap.contains_key diff id)
        (behavior (InvalidProgramBehavior.declared_account_missing_from_output id))
    check_declared diff ids

  abbrev pub initial_call : PublicTransaction → List AccountId → Call
  initial_call tx signers = (
    record {
      program_id = tx.message.program_id;
      pre_states = input_pre_states state signers tx.message.account_ids;
      instruction_data = tx.message.instruction_data;
      pda_seeds = [];
    },
    record { program_id = none; authorized_accounts = signers },
  )

  unfoldable pub from_public_transaction : PublicTransaction → Result LeeError StateDiff
  from_public_transaction tx = do
    signers ← authenticate_public_transaction_signers host tx state
    ensure (not (length tx.message.account_ids == 0)) (invalid_input InvalidInput.no_accounts)
    ensure (n_unique tx.message.account_ids == length tx.message.account_ids)
        (invalid_input InvalidInput.duplicate_account_ids)
    diff ← run_calls (suc max_number_chained_calls) (initial_call tx signers ∷ []) []
    check_claimed diff
    check_declared diff tx.message.account_ids
    ok (record {
      signer_account_ids = signers;
      public_diff = diff;
      new_commitments = [];
      new_nullifiers = [];
      program = none;
    })
