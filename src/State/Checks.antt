-- ===== src/State/Checks.antt =====
-- The checks that `from_public_transaction` of validated_state_diff/mod.rs makes on signers, on pre
-- states and on claims, and how a call changes the diff.
use lp_0002_private_multisig.Prelude.{
  ℕ, Bool, true, false, not, ◌||◌, Option, none, some, List, [], ◌∷◌, Bytes, bytes_eq, contains,
  length, ◌==◌, if◌then◌else◌, Result, ok, err, ◌>>=◌, ◌>>◌, ensure,
}
use lp_0002_private_multisig.Prelude.HashMap
use lp_0002_private_multisig.Prelude.HashMap.{HashMap}
use lp_0002_private_multisig.Core.Account.{
  ProgramId, AccountId, Account, AccountWithMetadata, default_program_id, account_eq,
}
use lp_0002_private_multisig.Core.Keys.{for_public_pda}
use lp_0002_private_multisig.Core.Program.{ChainedCall, Claim, AccountPostState}
use lp_0002_private_multisig.Core.Validation.{ExecutionValidationError}
use lp_0002_private_multisig.State.Types.{
  LeeError, InvalidInput, InvalidProgramBehavior, invalid_input, invalid_program_behavior, V03State,
  PublicTransaction, Host, get_account_by_id, lookup_account, signer_account_ids, all_valid,
}

pub record CallerData : Type 0 where
  pub program_id : Option ProgramId
  pub authorized_accounts : List AccountId

abbrev pub behavior : InvalidProgramBehavior → LeeError
behavior = invalid_program_behavior

-- The nonce loop of `authenticate_public_transaction_signers`, over the shorter of the two lists.
unfoldable pub check_nonces : HashMap Account → List AccountId → List ℕ → Result LeeError (Unit {0})
check_nonces accounts (id ∷ ids) (nonce ∷ nonces) = do
  ensure ((lookup_account accounts id).nonce == nonce) (invalid_input InvalidInput.nonce_mismatch)
  check_nonces accounts ids nonces
check_nonces accounts _ _ = ok tt

unfoldable pub authenticate_public_transaction_signers :
    Host → PublicTransaction → V03State → Result LeeError (List AccountId)
unfolding check_nonces
authenticate_public_transaction_signers host tx state = do
  let witnesses = tx.witness_set.signatures_and_public_keys
  ensure (length tx.message.nonces == length witnesses)
      (invalid_input InvalidInput.nonce_count_mismatch)
  ensure (all_valid host.signature_is_valid (host.message_hash tx.message) witnesses)
      (invalid_input InvalidInput.invalid_signature)
  let signers = signer_account_ids host.sha256 witnesses
  check_nonces state.public_state signers tx.message.nonces
  ok signers

-- The account that a call must see: the diff's, or else the state's.
abbrev pub expected_pre : HashMap Account → HashMap Account → AccountId → Account
expected_pre accounts diff id = elim (HashMap.get diff id) [
  | none ↦ lookup_account accounts id
  | some a ↦ a
]

-- The loop over `program_output.pre_states`.
unfoldable pub check_pre_states :
    HashMap Account
    → HashMap Account
    → List AccountId
    → List AccountId
    → List AccountWithMetadata
    → Result LeeError (Unit {0})
check_pre_states accounts diff pdas authorized [] = ok tt
check_pre_states accounts diff pdas authorized (pre ∷ pres) = do
  let id = pre.account_id
  ensure (account_eq pre.account (expected_pre accounts diff id))
      (behavior (InvalidProgramBehavior.inconsistent_account_pre_state id))
  let indeed = contains pdas id || contains authorized id
  ensure (not pre.is_authorized || indeed)
      (behavior (InvalidProgramBehavior.invalid_account_authorization id))
  ensure (pre.is_authorized || not indeed)
      (behavior (InvalidProgramBehavior.authorized_account_marked_as_not_authorized id))
  check_pre_states accounts diff pdas authorized pres

-- `Option<ProgramId>` equality.
abbrev pub option_eq : Option ProgramId → Option ProgramId → Bool
option_eq none none = true
option_eq (some a) (some b) = bytes_eq a b
option_eq none (some b) = false
option_eq (some a) none = false

abbrev pub map_err : Result ExecutionValidationError (Unit {0}) → Result LeeError (Unit {0})
map_err (ok u) = ok u
map_err (err e) = err (behavior (InvalidProgramBehavior.execution_validation_failed e))

-- The `match claim`, by the program `executing`.
unfoldable pub check_claim :
    (Bytes → Bytes) → ProgramId → AccountWithMetadata → Claim → Result LeeError (Unit {0})
check_claim sha256 executing pre Claim.authorized =
    ensure pre.is_authorized
      (behavior (InvalidProgramBehavior.claimed_unauthorized_account pre.account_id))
check_claim sha256 executing pre (Claim.pda seed) =
    let pda = for_public_pda sha256 executing seed in
    ensure (bytes_eq pre.account_id pda)
      (behavior (InvalidProgramBehavior.mismatched_pda_claim pda pre.account_id))

-- One round of the claim loop: the post state with its new owner.
unfoldable pub apply_claim :
    (Bytes → Bytes)
    → ProgramId
    → AccountWithMetadata
    → AccountPostState
    → Option Claim
    → Result LeeError AccountPostState
unfolding check_claim
apply_claim sha256 executing pre post none = ok post
apply_claim sha256 executing pre post (some claim) = do
  ensure (bytes_eq post.account.program_owner default_program_id)
      (behavior (InvalidProgramBehavior.claimed_non_default_account pre.account_id))
  check_claim sha256 executing pre claim
  ok (record post { account = record post.account { program_owner = executing } })

unfoldable pub apply_claims :
    (Bytes → Bytes)
    → ProgramId
    → List AccountWithMetadata
    → List AccountPostState
    → Result LeeError (List AccountPostState)
unfolding apply_claim
apply_claims sha256 executing (pre ∷ pres) (post ∷ posts) = do
  claimed ← apply_claim sha256 executing pre post post.claim
  rest ← apply_claims sha256 executing pres posts
  ok (claimed ∷ rest)
apply_claims sha256 executing _ _ = ok []

-- Update the state diff.
unfoldable pub update_diff :
    HashMap Account → List AccountWithMetadata → List AccountPostState → HashMap Account
update_diff diff (pre ∷ pres) (post ∷ posts) =
    update_diff (HashMap.insert diff pre.account_id post.account) pres posts
update_diff diff _ _ = diff

unfoldable pub authorized_ids : List AccountWithMetadata → List AccountId
authorized_ids [] = []
authorized_ids (pre ∷ pres) =
    if pre.is_authorized then pre.account_id ∷ authorized_ids pres else authorized_ids pres

abbrev pub Call : Type 0
Call = ChainedCall × CallerData

unfoldable pub with_caller : CallerData → List ChainedCall → List Call
with_caller caller [] = []
with_caller caller (c ∷ cs) = (c, caller) ∷ with_caller caller cs

-- The pre states that a transaction declares.
unfoldable pub input_pre_states :
    V03State → List AccountId → List AccountId → List AccountWithMetadata
input_pre_states state signers [] = []
input_pre_states state signers (id ∷ ids) =
    record {
      account = get_account_by_id state id;
      is_authorized = contains signers id;
      account_id = id;
    }
    ∷ input_pre_states state signers ids
