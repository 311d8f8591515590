-- ===== src/Circuit/Execution/Conservation.antt =====
-- What an execution that the circuit accepts does to balances (execution_state.rs).
use mathlib.Core.Path.{subst}
use lp_0002_private_multisig.Prelude.{
  ℕ, zero, suc, ◌≡◌, refl, Option, List, [], ◌∷◌, Bytes, ok, >>=-eq-ok, ok_or, All, arith,
}
use lp_0002_private_multisig.Core.Account.{ProgramId, AccountWithMetadata}
use lp_0002_private_multisig.Core.Balances.{sum}
use lp_0002_private_multisig.Core.Circuit.{InputAccountIdentity}
use lp_0002_private_multisig.Core.Program.{AccountPostState, ChainedCall, ProgramOutput}
use lp_0002_private_multisig.Core.Validation.{pre_balances, post_balances, validate_execution}
use lp_0002_private_multisig.Core.Validation.Rules.{
  AccountRules, AreBalances, validate_execution_iff,
}
use lp_0002_private_multisig.State.Types.{max_number_chained_calls}
use lp_0002_private_multisig.State.Totals.{total_balance}
use lp_0002_private_multisig.Circuit.Types.{ExecutionState, CircuitHost}
use lp_0002_private_multisig.Circuit.Sync.{sync_one, validate_and_sync_states}
use lp_0002_private_multisig.Circuit.Sync.Moves.{Moves, sync_one-Moves}
use lp_0002_private_multisig.Circuit.Execution.{
  QueuedCall, process_output, run_outputs, first_output, initial_state, initial_queue,
  keys_by_position, block_windows, timestamp_windows, intersect_windows, derive_from_outputs,
}

-- The final balances of the accounts of an execution are as much as the initial ones.
abbrev IsBalanced : ExecutionState → Type 0
IsBalanced s = sum (pre_balances s.pre_states) ≡ total_balance s.post_states

module _ (host : CircuitHost) (identities : List InputAccountIdentity) where
  validate_and_sync_states-Moves :
      (program_id : ProgramId) (caller : Option ProgramId) (seeds : List Bytes)
      (executing : ProgramId) (s : ExecutionState) (pres : List AccountWithMetadata)
      (posts : List AccountPostState) {s' : ExecutionState}
      → AccountRules pres posts executing
      → validate_and_sync_states host.sha256 identities program_id caller seeds s pres posts ≡ ok s'
      → Moves host.sha256 s (sum (pre_balances pres)) (sum (post_balances posts)) s'
  unfolding validate_and_sync_states
  validate_and_sync_states-Moves program_id caller seeds executing s [] [] {s'} rules h =
      let e : s ≡ s' = ground (arith, h) in subst (Moves host.sha256 s 0 0) e refl
  validate_and_sync_states-Moves program_id caller seeds executing s [] (post ∷ posts) rules h =
      absurd rules
  validate_and_sync_states-Moves program_id caller seeds executing s (pre ∷ pres) [] rules h =
      absurd rules
  validate_and_sync_states-Moves program_id caller seeds executing s (pre ∷ pres) (post ∷ posts)
        rules h =
      let (synced, e, rest) =
        >>=-eq-ok (sync_one host.sha256 identities program_id caller seeds s pre post) _ h in
      let one = sync_one-Moves host.sha256 identities program_id caller seeds s pre post e in
      let more =
        validate_and_sync_states-Moves program_id caller seeds executing synced pres posts rules.1
          rest in
      omega (arith, one, more)

  process_output-IsBalanced :
      (s : ExecutionState) (call : ChainedCall) (caller : Option ProgramId) (output : ProgramOutput)
      {s' : ExecutionState}
      → AreBalances output.pre_states output.post_states
      → process_output host identities s call caller output ≡ ok s'
      → IsBalanced s
      → IsBalanced s'
  unfolding process_output
  process_output-IsBalanced s call caller output {s'} b h balanced =
      let valid : validate_execution output.pre_states output.post_states call.program_id ≡ ok tt =
        ground (arith, h) in
      let synced : validate_and_sync_states host.sha256 identities call.program_id caller
            call.pda_seeds s output.pre_states output.post_states
          ≡ ok s' =
        ground (arith, h) in
      let good =
        (validate_execution_iff output.pre_states output.post_states call.program_id b).0 valid in
      let moves =
        validate_and_sync_states-Moves call.program_id caller call.pda_seeds call.program_id s
          output.pre_states output.post_states good.rules synced in
      omega (arith, moves, good.conserved, balanced)

  run_outputs-IsBalanced :
      (remaining : ℕ) (queue : List QueuedCall) (outputs : List ProgramOutput) (s : ExecutionState)
      {s' : ExecutionState}
      → All (λ o. AreBalances o.pre_states o.post_states) outputs
      → run_outputs host identities remaining queue outputs s ≡ ok s'
      → IsBalanced s
      → IsBalanced s'
  unfolding run_outputs
  run_outputs-IsBalanced remaining [] [] s {s'} b h balanced =
      let e : s ≡ s' = ground (arith, h) in subst IsBalanced e balanced
  run_outputs-IsBalanced remaining [] (output ∷ outputs) s b h balanced = absurd (ground (arith, h))
  run_outputs-IsBalanced zero ((call, caller) ∷ queue) outputs s b h balanced =
      absurd (ground (arith, h))
  run_outputs-IsBalanced (suc remaining) ((call, caller) ∷ queue) [] s b h balanced =
      absurd (ground (arith, h))
  run_outputs-IsBalanced (suc remaining) ((call, caller) ∷ queue) (output ∷ outputs) s b h
        balanced =
      let (processed, e, rest) =
        >>=-eq-ok (process_output host identities s call caller output) _ h in
      run_outputs-IsBalanced remaining _ outputs processed b.1 rest
        (process_output-IsBalanced s call caller output b.0 e balanced)

module _ (host : CircuitHost) (identities : List InputAccountIdentity) (program_id : ProgramId)
    (outputs : List ProgramOutput) where
  -- The circuit accepts no list of outputs, each with u128 balances and fewer than 2^128 accounts,
  -- that creates or destroys money: over the accounts of the execution, public and private ones
  -- together, the final balances add up to what the balances of their first states do.
  pub derive_from_outputs-IsBalanced :
      {s : ExecutionState}
      → All (λ o. AreBalances o.pre_states o.post_states) outputs
      → derive_from_outputs host identities program_id outputs ≡ ok s
      → sum (pre_balances s.pre_states) ≡ total_balance s.post_states
  unfolding derive_from_outputs total_balance
  derive_from_outputs-IsBalanced {s} b h =
      let (block, e0, h0) = >>=-eq-ok (intersect_windows (block_windows outputs)) _ h in
      let (timestamp, e1, h1) = >>=-eq-ok (intersect_windows (timestamp_windows outputs)) _ h0 in
      let (first, e2, h2) = >>=-eq-ok (ok_or (first_output outputs) _) _ h1 in
      let start = initial_state block timestamp (keys_by_position host.sha256 0 identities) in
      let (final, e3, h3) =
        >>=-eq-ok
          (run_outputs host identities (suc max_number_chained_calls)
            (initial_queue program_id first) outputs start)
          _ h2 in
      let e : final ≡ s = ground (arith, h3) in
      subst IsBalanced e (
        run_outputs-IsBalanced host identities (suc max_number_chained_calls)
          (initial_queue program_id first) outputs start b e3 refl)
