-- ===== src/State/Private/Rules.antt =====
-- The rules of a privacy preserving transaction as a predicate.
use lp_0002_private_multisig.Prelude.{
  ℕ, ◌<◌, ◌≡◌, ◌↔◌, refl, true, false, none, List, [], ◌∷◌, contains, n_unique_iff, IsDistinct,
  length, All, arith, ok,
}
use lp_0002_private_multisig.Core.Commitments.{Commitment, Nullifier, CommitmentSetDigest}
use lp_0002_private_multisig.Core.Circuit.{CircuitOutput}
use lp_0002_private_multisig.Core.Program.{is_valid_for}
use lp_0002_private_multisig.State.Types.{V03State, StateDiff, all_valid}
use lp_0002_private_multisig.State.Checks.{check_nonces, input_pre_states}
use lp_0002_private_multisig.State.Private.{
  PrivacyHost, PrivacyPreservingTransaction, commitments, nullifiers, public_account_ids, first_of,
  zip_actions, contains_commitment, check_commitments_are_new, check_nullifiers_are_valid,
  collect_actions, check_proof, privacy_signers, from_privacy_preserving_transaction,
}

check_commitments_are_new_iff :
    (state : V03State) (cs : List Commitment)
    → (check_commitments_are_new state cs ≡ ok tt)
      ↔ All (λ c. contains_commitment state.commitment_set c ≡ false) cs
unfolding check_commitments_are_new
check_commitments_are_new_iff state [] = (λ h. tt, λ h. refl)
check_commitments_are_new_iff state (c ∷ cs) =
    ground (arith, check_commitments_are_new_iff state cs)

-- A nullifier that is not spent, with the digest of some state of the commitment set.
abbrev pub IsSpendable : V03State → Nullifier × CommitmentSetDigest → Type 0
IsSpendable state (nullifier, digest) =
    (contains state.nullifier_set nullifier ≡ false)
    × (contains state.commitment_set.root_history digest ≡ true)

check_nullifiers_are_valid_iff :
    (state : V03State) (ns : List (Nullifier × CommitmentSetDigest))
    → (check_nullifiers_are_valid state ns ≡ ok tt) ↔ All (IsSpendable state) ns
unfolding check_nullifiers_are_valid
check_nullifiers_are_valid_iff state [] = (λ h. tt, λ h. refl)
check_nullifiers_are_valid_iff state ((n, d) ∷ ns) =
    ground (arith, check_nullifiers_are_valid_iff state ns)

length-first_of : (ns : List (Nullifier × CommitmentSetDigest)) → length (first_of ns) ≡ length ns
length-first_of [] = refl
length-first_of ((n, d) ∷ ns) = omega (arith, length-first_of ns)

module _ (host : PrivacyHost) (state : V03State) (block_id timestamp : ℕ)
    (tx : PrivacyPreservingTransaction) where
  -- The output that the proof has to be a proof of.
  abbrev pub claimed_output : CircuitOutput
  unfolding zip_actions
  claimed_output = record {
    public_actions =
        zip_actions
          (input_pre_states state (privacy_signers host state tx)
            (public_account_ids tx.message.public_actions))
          tx.message.public_actions;
    private_actions = tx.message.private_actions;
    block_validity_window = tx.message.block_validity_window;
    timestamp_validity_window = tx.message.timestamp_validity_window;
  }

  pub record IsAcceptable : Type 0 where
    pub some_private : 0 < length tx.message.private_actions
    pub accounts_distinct : IsDistinct (public_account_ids tx.message.public_actions)
    pub nullifiers_distinct : IsDistinct (first_of (nullifiers tx.message.private_actions))
    pub commitments_distinct : IsDistinct (commitments tx.message.private_actions)
    pub one_nonce_each : length tx.message.nonces ≡ length tx.witness_set.signatures_and_public_keys
    pub signatures_valid :
        all_valid host.signature_is_valid
          (host.message_hash tx.message)
          tx.witness_set.signatures_and_public_keys
        ≡ true
    pub nonces_current :
        check_nonces state.public_state (privacy_signers host state tx) tx.message.nonces ≡ ok tt
    pub in_block_window : is_valid_for tx.message.block_validity_window block_id ≡ true
    pub in_timestamp_window : is_valid_for tx.message.timestamp_validity_window timestamp ≡ true
    pub proved : host.proof_is_valid tx.witness_set.proof claimed_output ≡ true
    pub commitments_fresh :
        All
          (λ c. contains_commitment state.commitment_set c ≡ false)
          (commitments tx.message.private_actions)
    pub nullifiers_spendable : All (IsSpendable state) (nullifiers tx.message.private_actions)

  abbrev pub privacy_diff : StateDiff
  privacy_diff = record {
    signer_account_ids = privacy_signers host state tx;
    public_diff = collect_actions [] tx.message.public_actions;
    new_commitments = commitments tx.message.private_actions;
    new_nullifiers = first_of (nullifiers tx.message.private_actions);
    program = none;
  }

  -- A privacy preserving transaction is accepted with a diff exactly if it keeps all the rules and the
  -- diff is its own: its signers, its public accounts, its commitments and its nullifiers.
  pub from_privacy_preserving_transaction_iff :
      (diff : StateDiff)
      → (from_privacy_preserving_transaction host state block_id timestamp tx ≡ ok diff)
        ↔ (IsAcceptable × (diff ≡ privacy_diff))
  unfolding from_privacy_preserving_transaction check_proof zip_actions
  from_privacy_preserving_transaction_iff diff =
      let fresh = check_commitments_are_new_iff state (commitments tx.message.private_actions) in
      let spendable =
        check_nullifiers_are_valid_iff state (nullifiers tx.message.private_actions) in
      let ids = n_unique_iff (public_account_ids tx.message.public_actions) in
      let spent_ids = n_unique_iff (first_of (nullifiers tx.message.private_actions)) in
      let new_ids = n_unique_iff (commitments tx.message.private_actions) in
      let len = length-first_of (nullifiers tx.message.private_actions) in
      (λ h. ground arith, λ h. ground arith)
