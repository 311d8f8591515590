-- ===== src/Circuit/Output/Counts.antt =====
-- How many actions the circuit emits (output.rs).
use mathlib.Core.List.{map}
use lp_0002_private_multisig.Prelude.{
  ℕ, ◌+◌, ◌≡◌, List, [], ◌∷◌, ◌++◌, length, if◌then◌else◌, ok_or, ok, >>=-eq-ok, ensure-eq-ok, ◌==◌,
  arith,
}
use lp_0002_private_multisig.Prelude.HashMap
use lp_0002_private_multisig.Prelude.HashMap.{HashMap}
use lp_0002_private_multisig.Core.Account.{Account, AccountWithMetadata}
use lp_0002_private_multisig.Core.Circuit.{
  InputAccountIdentity, private_authorized_init, private_authorized_update, private_foreign_init,
  private_pda_init, private_pda_update, is_public, DummyInput, PrivateAction, CircuitInput,
  CircuitOutput,
}
use lp_0002_private_multisig.Circuit.Types.{
  missing_post_state, identities_length, Binding, ExecutionState, CircuitHost,
}
use lp_0002_private_multisig.Circuit.Execution.{derive_from_outputs}
use lp_0002_private_multisig.Circuit.Emit.{
  emit_private_output, emit_dummy_output, emit_dummy_outputs,
}
use lp_0002_private_multisig.Circuit.Obfuscation.{
  obfuscate_output_ordering, nullifier_of, commitment_of,
}
use lp_0002_private_multisig.Circuit.Obfuscation.Sorted.{
  IsSorted, length-obfuscate_output_ordering, obfuscate_output_ordering_lem,
}
use lp_0002_private_multisig.Circuit.Output.{
  Actions, remove, emit_regular_init, emit_account, emit_accounts, compute_circuit_output,
  circuit_main,
}

-- The public and the private ones of the accounts.
abbrev pub count_public : List InputAccountIdentity → ℕ
count_public [] = 0
count_public (identity ∷ identities) =
    let rest = count_public identities in if is_public identity then rest + 1 else rest

abbrev pub count_private : List InputAccountIdentity → ℕ
count_private [] = 0
count_private (identity ∷ identities) =
    let rest = count_private identities in if is_public identity then rest else rest + 1

length-snoc : {A : Type 0} (xs : List A) (x : A) → length (xs ++ x ∷ []) ≡ length xs + 1
length-snoc [] x = omega arith
length-snoc (y ∷ xs) x = omega (arith, length-snoc xs x)

module _ (host : CircuitHost) where
  abbrev Adds : Actions → InputAccountIdentity → Actions → Type 0
  Adds actions identity emitted =
      (length emitted.0 + count_public [] ≡ length actions.0 + count_public (identity ∷ []))
      × (length emitted.1 ≡ length actions.1 + count_private (identity ∷ []))

  emit_account-Adds :
      (bound : List (ℕ × Binding)) (position : ℕ) (identity : InputAccountIdentity)
      (pre : AccountWithMetadata) (post : Account) (actions : Actions) {emitted : Actions}
      → emit_account host bound position identity (pre, post) actions ≡ ok emitted
      → Adds actions identity emitted
  unfolding emit_account emit_private_output emit_regular_init is_public
  emit_account-Adds bound position InputAccountIdentity.public pre post actions h =
      ground (arith, h, length-snoc actions.0 (record { pre = pre; post = post }))
  emit_account-Adds bound position (private_authorized_init vpk random_seed nsk identifier root) pre
        post actions h =
      grind (arith, h, length-snoc)
  emit_account-Adds bound position
        (private_authorized_update vpk random_seed view_tag nsk proof identifier) pre post actions
        h =
      grind (arith, h, length-snoc)
  emit_account-Adds bound position (private_foreign_init vpk random_seed npk identifier root) pre
        post actions h =
      grind (arith, h, length-snoc)
  emit_account-Adds bound position (private_pda_init vpk random_seed npk identifier root seed) pre
        post actions h =
      grind (arith, h, length-snoc)
  emit_account-Adds bound position
        (private_pda_update vpk random_seed view_tag nsk proof identifier seed) pre post actions h =
      grind (arith, h, length-snoc)

  emit_accounts-Adds :
      (bound : List (ℕ × Binding)) (position : ℕ) (identities : List InputAccountIdentity)
      (pres : List AccountWithMetadata) (posts : HashMap Account) (actions : Actions)
      {emitted : Actions}
      → length identities ≡ length pres
      → emit_accounts host bound position identities pres posts actions ≡ ok emitted
      → (length emitted.0 ≡ length actions.0 + count_public identities)
        × (length emitted.1 ≡ length actions.1 + count_private identities)
  unfolding emit_accounts
  emit_accounts-Adds bound position [] [] posts actions e h = grind (arith, h)
  emit_accounts-Adds bound position [] (pre ∷ pres) posts actions e h = absurd (omega (arith, e))
  emit_accounts-Adds bound position (identity ∷ identities) [] posts actions e h =
      absurd (omega (arith, e))
  emit_accounts-Adds bound position (identity ∷ identities) (pre ∷ pres) posts actions e h =
      let (post, _, h0) =
        >>=-eq-ok (ok_or (HashMap.get posts pre.account_id) missing_post_state) _ h in
      let (next, e1, h1) =
        >>=-eq-ok (emit_account host bound position identity (pre, post) actions) _ h0 in
      let one = emit_account-Adds bound position identity pre post actions e1 in
      let more =
        emit_accounts-Adds bound (position + 1) identities pres (remove posts pre.account_id) next
          (omega (arith, e)) h1 in
      ground (arith, one, more)

  length-emit_dummy_outputs :
      (actions : List PrivateAction) (dummies : List DummyInput)
      → length (emit_dummy_outputs host actions dummies) ≡ length actions + length dummies
  unfolding emit_dummy_outputs emit_dummy_output
  length-emit_dummy_outputs actions [] = omega arith
  length-emit_dummy_outputs actions (dummy ∷ dummies) =
      grind (
        arith,
        length-emit_dummy_outputs (emit_dummy_output host actions dummy) dummies,
        length-snoc,
      )

  compute_circuit_output-counts :
      (input : CircuitInput) (s : ExecutionState) {output : CircuitOutput}
      → compute_circuit_output host input s ≡ ok output
      → (length output.public_actions ≡ count_public input.account_identities)
        × (length output.private_actions
            ≡ count_private input.account_identities + length input.dummy_inputs)
        × (actions : List PrivateAction) × (output.private_actions
            ≡ obfuscate_output_ordering actions)
  unfolding compute_circuit_output
  compute_circuit_output-counts input s h =
      let (same, h0) =
        ensure-eq-ok (length input.account_identities == length s.pre_states) identities_length _
          h in
      let ((publics, privates), e1, h1) =
        >>=-eq-ok
          (emit_accounts host s.private_pda_bound_positions 0 input.account_identities s.pre_states
            s.post_states ([], []))
          _ h0 in
      let (publics_len, privates_len) =
        emit_accounts-Adds s.private_pda_bound_positions 0 input.account_identities s.pre_states
          s.post_states ([], []) (ground (arith, same)) e1 in
      let dummies = length-emit_dummy_outputs privates input.dummy_inputs in
      let mixed =
        length-obfuscate_output_ordering (emit_dummy_outputs host privates input.dummy_inputs) in
      (
        ground (arith, h1, publics_len),
        ground (arith, h1, privates_len, dummies, mixed),
        emit_dummy_outputs host privates input.dummy_inputs,
        ground (arith, h1),
      )

  -- If the circuit commits an output, it has one public action for each public account of the input,
  -- and one private action for each other account and for each dummy, with the nullifiers in order, and
  -- the commitments in order on their own.
  pub circuit_main-counts :
      (input : CircuitInput) {output : CircuitOutput}
      → circuit_main host input ≡ ok output
      → (length output.public_actions ≡ count_public input.account_identities)
        × (length output.private_actions
            ≡ count_private input.account_identities + length input.dummy_inputs)
        × IsSorted (map nullifier_of output.private_actions)
        × IsSorted (map commitment_of output.private_actions)
  unfolding circuit_main
  circuit_main-counts input h =
      let (s, _, h0) =
        >>=-eq-ok
          (derive_from_outputs host input.account_identities input.program_id input.program_outputs)
          _ h in
      let (publics, privates, actions, e) = compute_circuit_output-counts input s h0 in
      let (spent, created, _, _) = obfuscate_output_ordering_lem actions in
      (publics, privates, rw e spent, rw e created)
