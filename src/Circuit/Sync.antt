-- ===== src/Circuit/Sync.antt =====
-- `validate_and_sync_states` of lee/privacy_preserving_circuit/src/execution_state.rs: one output's pre
-- and post states against the state of the execution.
pub mod Unmoved
pub mod Moves
use lp_0002_private_multisig.Prelude.{
  ℕ, ◌+◌, Option, none, some, List, [], ◌∷◌, ◌++◌, Bool, true, false, not, Bytes, bytes_eq,
  get_elem?, length, if◌then◌else◌, Result, ok, err, ◌>>=◌, ◌>>◌, ensure, ok_or,
}
use lp_0002_private_multisig.Prelude.HashMap
use lp_0002_private_multisig.Core.Account.{
  ProgramId, AccountId, Account, AccountWithMetadata, default_program_id, account_eq,
}
use lp_0002_private_multisig.Core.Circuit.{
  InputAccountIdentity, private_pda_init, private_pda_update, is_public,
}
use lp_0002_private_multisig.Core.Keys.{nullifier_public_key, for_public_pda, for_private_pda}
use lp_0002_private_multisig.Core.Program.{AccountPostState, Claim}
use lp_0002_private_multisig.Circuit.Types.{
  CircuitPanic, inconsistent_pre_state, missing_pre_state, inconsistent_authorization,
  external_seed_mismatch, external_seed_authorized, claim_initialized, index_out_of_range,
  claim_unauthorized, public_pda_mismatch, private_pda_mismatch, missing_npk, Binding, get_position,
  ExecutionState,
}
use lp_0002_private_multisig.Circuit.Bindings.{
  assert_family_binding, bind_both, resolve_authorization_and_record_bindings,
}

-- The first pre state with the id, counted from `position`: the position, and its authorization.
unfoldable pub find_pre : ℕ → List AccountWithMetadata → AccountId → Option (ℕ × Bool)
find_pre position [] account_id = none
find_pre position (pre ∷ pres) account_id =
    if bytes_eq pre.account_id account_id
    then some (position, pre.is_authorized)
    else find_pre (position + 1) pres account_id

abbrev pub bool_eq : Bool → Bool → Bool
bool_eq true b = b
bool_eq false b = not b

module _ (sha256 : Bytes → Bytes) where
  -- The binding that an externally provided seed of a private PDA gives.
  unfoldable pub external_seed :
      Option InputAccountIdentity → AccountId → Result CircuitPanic (Option Binding)
  external_seed (some (private_pda_init vpk _ npk identifier _ (some (seed, authority))))
        account_id =
      ensure (bytes_eq account_id (for_private_pda sha256 authority seed npk vpk identifier))
        external_seed_mismatch
      >> ok (some (authority, seed))
  external_seed (some (private_pda_update vpk _ _ nsk _ identifier (some (seed, authority))))
        account_id =
      ensure
        (bytes_eq account_id
          (for_private_pda sha256 authority seed (nullifier_public_key sha256 nsk) vpk identifier))
        external_seed_mismatch
      >> ok (some (authority, seed))
  external_seed _ account_id = ok none

  unfoldable pub bind_external :
      ExecutionState → AccountWithMetadata → Option Binding → Result CircuitPanic ExecutionState
  bind_external s pre none = ok s
  bind_external s pre (some b) = do
    ensure (not pre.is_authorized) external_seed_authorized
    bind_both s (length s.pre_states) b pre.account_id

  -- `Entry::Vacant`: the account is seen for the first time.
  unfoldable pub first_seen :
      List InputAccountIdentity
      → ExecutionState
      → AccountWithMetadata
      → Result CircuitPanic ExecutionState
  unfolding bind_external
  first_seen identities s pre = do
    external ← external_seed (get_elem? identities (length s.pre_states)) pre.account_id
    bound ← bind_external s pre external
    ok (record bound { pre_states = bound.pre_states ++ pre ∷ [] })

  -- `Entry::Occupied`: the account is known with the state `known`.
  unfoldable pub seen_again :
      Option ProgramId
      → List Bytes
      → ExecutionState
      → AccountWithMetadata
      → (known : Account) → Result CircuitPanic ExecutionState
  seen_again caller seeds s pre known = do
    ensure (account_eq known pre.account) inconsistent_pre_state
    (position, previous) ← ok_or (find_pre 0 s.pre_states pre.account_id) missing_pre_state
    (authorized, resolved) ←
        resolve_authorization_and_record_bindings sha256 s pre.account_id position caller seeds
          previous
    ensure (bool_eq pre.is_authorized authorized) inconsistent_authorization
    ok resolved

  -- The checks on one claim by `program_id`, for a public account and for a private one.
  unfoldable pub check_public_claim :
      ProgramId → ExecutionState → AccountWithMetadata → Claim → Result CircuitPanic ExecutionState
  check_public_claim program_id s pre Claim.authorized =
      ensure pre.is_authorized claim_unauthorized >> ok s
  check_public_claim program_id s pre (Claim.pda seed) = do
    ensure (bytes_eq pre.account_id (for_public_pda sha256 program_id seed)) public_pda_mismatch
    family ← assert_family_binding s.pda_family_binding (program_id, seed) pre.account_id
    ok (record s { pda_family_binding = family })

  unfoldable pub check_private_claim :
      ProgramId
      → ℕ
      → ExecutionState
      → AccountWithMetadata
      → Claim
      → Result CircuitPanic ExecutionState
  check_private_claim program_id position s pre Claim.authorized = ok s
  check_private_claim program_id position s pre (Claim.pda seed) = do
    (npk, vpk, identifier) ← ok_or (get_position s.private_pda_by_position position) missing_npk
    ensure (bytes_eq pre.account_id (for_private_pda sha256 program_id seed npk vpk identifier))
        private_pda_mismatch
    bind_both s position (program_id, seed) pre.account_id

  -- The post account, with its new owner if it is claimed.
  unfoldable pub sync_claim :
      List InputAccountIdentity
      → ProgramId
      → ExecutionState
      → AccountWithMetadata
      → Account
      → Option Claim
      → Result CircuitPanic (Account × ExecutionState)
  unfolding find_pre
  sync_claim identities program_id s pre post none = ok (post, s)
  sync_claim identities program_id s pre post (some claim) = do
    ensure (bytes_eq post.program_owner default_program_id) claim_initialized
    (position, _) ← ok_or (find_pre 0 s.pre_states pre.account_id) missing_pre_state
    identity ← ok_or (get_elem? identities position) index_out_of_range
    checked ←
        (if is_public identity
          then check_public_claim program_id s pre claim
          else check_private_claim program_id position s pre claim)
    ok (record post { program_owner = program_id }, checked)

  -- One round of the loop.
  unfoldable pub sync_one :
      List InputAccountIdentity
      → ProgramId
      → Option ProgramId
      → List Bytes
      → ExecutionState
      → AccountWithMetadata
      → AccountPostState
      → Result CircuitPanic ExecutionState
  sync_one identities program_id caller seeds s pre post = do
    entered ← (elim (HashMap.get s.post_states pre.account_id) [
      | none ↦ first_seen identities s pre
      | some known ↦ seen_again caller seeds s pre known
    ])
    (account, claimed) ← sync_claim identities program_id entered pre post.account post.claim
    ok (record claimed { post_states = HashMap.insert claimed.post_states pre.account_id account })

  unfoldable pub validate_and_sync_states :
      List InputAccountIdentity
      → ProgramId
      → Option ProgramId
      → List Bytes
      → ExecutionState
      → List AccountWithMetadata
      → List AccountPostState
      → Result CircuitPanic ExecutionState
  validate_and_sync_states identities program_id caller seeds s (pre ∷ pres) (post ∷ posts) =
      sync_one identities program_id caller seeds s pre post >>= λ synced.
      validate_and_sync_states identities program_id caller seeds synced pres posts
  validate_and_sync_states identities program_id caller seeds s _ _ = ok s
