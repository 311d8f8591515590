-- ===== src/Circuit/Output.antt =====
-- `compute_circuit_output` of lee/privacy_preserving_circuit/src/output.rs, `into_parts` of
-- execution_state.rs, and `main` of main.rs.
pub mod Counts
use lp_0002_private_multisig.Prelude.{
  ℕ, ◌+◌, Option, none, some, List, [], ◌∷◌, ◌++◌, Bool, true, false, not, Bytes, bytes_eq, length,
  ◌==◌, if◌then◌else◌, Result, ok, err, ◌>>=◌, ◌>>◌, ensure, ok_or,
}
use lp_0002_private_multisig.Prelude.HashMap
use lp_0002_private_multisig.Prelude.HashMap.{HashMap}
use lp_0002_private_multisig.Core.Account.{
  ProgramId, AccountId, Account, AccountWithMetadata, default_account, account_eq,
}
use lp_0002_private_multisig.Core.Circuit.{
  InputAccountIdentity, private_authorized_init, private_authorized_update, private_foreign_init,
  private_pda_init, private_pda_update, PrivateAction, PublicAction, CircuitOutput, CircuitInput,
  compute_view_tag, regular, pda_kind, ExternalSeed,
}
use lp_0002_private_multisig.Core.Commitments.{
  CommitmentSetDigest, for_account_initialization, private_account_nonce_init,
  private_account_nonce_increment,
}
use lp_0002_private_multisig.Core.Keys.{nullifier_public_key, for_regular_private_account}
use lp_0002_private_multisig.Circuit.Types.{
  CircuitPanic, missing_post_state, identities_length, account_id_mismatch, not_authorized,
  not_default, pda_authorization, missing_seed, Binding, get_position, ExecutionState, CircuitHost,
}
use lp_0002_private_multisig.Circuit.Sync.{bool_eq}
use lp_0002_private_multisig.Circuit.Execution.{derive_from_outputs}
use lp_0002_private_multisig.Circuit.Emit.{
  emit_private_output, emit_dummy_outputs, compute_update_nullifier_and_set_digest,
}
use lp_0002_private_multisig.Circuit.Obfuscation.{obfuscate_output_ordering}

-- `remove` of a map.
unfoldable pub remove : HashMap Account → AccountId → HashMap Account
remove [] k = []
remove ((j, a) ∷ m) k = let rest = remove m k in if bytes_eq j k then m else (j, a) ∷ rest

-- The actions that are collected: public ones, and private ones.
abbrev pub Actions : Type 0
Actions = List PublicAction × List PrivateAction

abbrev has_seed : ExternalSeed → Bool
has_seed none = false
has_seed (some seed) = true

module _ (host : CircuitHost) where
  -- What the two arms that create a regular private account emit after their checks.
  unfoldable pub emit_regular_init :
      List PrivateAction
      → (vpk random_seed npk : Bytes) (identifier : ℕ) (commitment_root : CommitmentSetDigest)
      → AccountId
      → Account
      → List PrivateAction
  unfolding emit_private_output
  emit_regular_init privates vpk random_seed npk identifier commitment_root account_id post =
      emit_private_output host privates post account_id (regular identifier)
        (compute_view_tag host.sha256 npk vpk) vpk random_seed
        (for_account_initialization host.sha256 account_id, commitment_root)
        (private_account_nonce_init host.sha256 account_id)

  -- The body of the loop; `bound` is the map of the bound seeds.
  unfoldable pub emit_account :
      List (ℕ × Binding)
      → ℕ
      → InputAccountIdentity
      → AccountWithMetadata × Account
      → Actions
      → Result CircuitPanic Actions
  emit_account bound position InputAccountIdentity.public (pre, post) (publics, privates) =
      ok (publics ++ record { pre = pre; post = post } ∷ [], privates)
  emit_account bound position
        (private_authorized_init vpk random_seed nsk identifier commitment_root) (pre, post)
        (publics, privates) =
      do
        let npk = nullifier_public_key host.sha256 nsk
        let account_id = for_regular_private_account host.sha256 npk vpk identifier
        ensure (bytes_eq account_id pre.account_id) account_id_mismatch
        ensure pre.is_authorized not_authorized
        ensure (account_eq pre.account default_account) not_default
        ok (
          publics,
          emit_regular_init privates vpk random_seed npk identifier commitment_root account_id post,
        )
  emit_account bound position
        (private_authorized_update vpk random_seed view_tag nsk membership_proof identifier)
        (pre, post) (publics, privates) =
      do
        let npk = nullifier_public_key host.sha256 nsk
        let account_id = for_regular_private_account host.sha256 npk vpk identifier
        ensure (bytes_eq account_id pre.account_id) account_id_mismatch
        ensure pre.is_authorized not_authorized
        ok (
          publics,
          emit_private_output host privates post account_id (regular identifier) view_tag vpk
              random_seed
              (compute_update_nullifier_and_set_digest host membership_proof pre.account account_id
                nsk)
              (private_account_nonce_increment host.sha256 pre.account.nonce nsk),
        )
  emit_account bound position (private_foreign_init vpk random_seed npk identifier commitment_root)
        (pre, post) (publics, privates) =
      do
        let account_id = for_regular_private_account host.sha256 npk vpk identifier
        ensure (bytes_eq account_id pre.account_id) account_id_mismatch
        ensure (account_eq pre.account default_account) not_default
        ensure pre.is_authorized not_authorized
        ok (
          publics,
          emit_regular_init privates vpk random_seed npk identifier commitment_root account_id post,
        )
  emit_account bound position (private_pda_init vpk random_seed npk identifier commitment_root _)
        (pre, post) (publics, privates) =
      do
        ensure (not pre.is_authorized) pda_authorization
        ensure (account_eq pre.account default_account) not_default
        (authority, seed) ← ok_or (get_position bound position) missing_seed
        ok (
          publics,
          emit_private_output host privates post pre.account_id (pda_kind authority seed identifier)
              (compute_view_tag host.sha256 npk vpk) vpk random_seed
              (for_account_initialization host.sha256 pre.account_id, commitment_root)
              (private_account_nonce_init host.sha256 pre.account_id),
        )
  emit_account bound position
        (private_pda_update vpk random_seed view_tag nsk membership_proof identifier external_seed)
        (pre, post) (publics, privates) =
      do
        ensure (not (bool_eq pre.is_authorized (has_seed external_seed))) pda_authorization
        (authority, seed) ← ok_or (get_position bound position) missing_seed
        ok (
          publics,
          emit_private_output host privates post pre.account_id (pda_kind authority seed identifier)
              view_tag vpk random_seed
              (compute_update_nullifier_and_set_digest host membership_proof pre.account
                pre.account_id nsk)
              (private_account_nonce_increment host.sha256 pre.account.nonce nsk),
        )

  -- The loop. The iterator of `into_parts` takes the post state of each pre state out of the map.
  unfoldable pub emit_accounts :
      List (ℕ × Binding)
      → ℕ
      → List InputAccountIdentity
      → List AccountWithMetadata
      → HashMap Account
      → Actions
      → Result CircuitPanic Actions
  emit_accounts bound position (identity ∷ identities) (pre ∷ pres) posts actions =
      ok_or (HashMap.get posts pre.account_id) missing_post_state >>= λ post.
      emit_account bound position identity (pre, post) actions >>= λ emitted.
      emit_accounts bound (position + 1) identities pres (remove posts pre.account_id) emitted
  emit_accounts bound position _ _ posts actions = ok actions

  -- The length is compared before the iterator runs.
  unfoldable pub compute_circuit_output :
      CircuitInput → ExecutionState → Result CircuitPanic CircuitOutput
  unfolding emit_dummy_outputs
  compute_circuit_output input s = do
    ensure (length input.account_identities == length s.pre_states) identities_length
    (publics, privates) ←
        emit_accounts s.private_pda_bound_positions 0 input.account_identities s.pre_states
          s.post_states ([], [])
    ok (record {
      public_actions = publics;
      private_actions =
          obfuscate_output_ordering (emit_dummy_outputs host privates input.dummy_inputs);
      block_validity_window = s.block_validity_window;
      timestamp_validity_window = s.timestamp_validity_window;
    })

  -- `main`
  unfoldable pub circuit_main : CircuitInput → Result CircuitPanic CircuitOutput
  circuit_main input =
      derive_from_outputs host input.account_identities input.program_id input.program_outputs
      >>= compute_circuit_output input
