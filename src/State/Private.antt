-- ===== src/State/Private.antt =====
-- The transactions of validated_state_diff/mod.rs that are not public: those that preserve privacy
-- (privacy_preserving_transaction/) and those that deploy a program (program_deployment_transaction/).
pub mod Rules
use lp_0002_private_multisig.Prelude.{
  ℕ, Bool, true, false, not, ◌&&◌, Option, none, some, List, [], ◌∷◌, Bytes, contains, n_unique,
  length, ◌==◌, if◌then◌else◌, Result, ok, err, ◌>>=◌, ◌>>◌, ensure, ok_or,
}
use lp_0002_private_multisig.Prelude.HashMap
use lp_0002_private_multisig.Prelude.HashMap.{HashMap}
use lp_0002_private_multisig.Core.Account.{ProgramId, AccountId, Account, AccountWithMetadata}
use lp_0002_private_multisig.Core.Commitments.{Commitment, Nullifier, CommitmentSetDigest}
use lp_0002_private_multisig.Core.Circuit.{PrivateAction, PublicAction, CircuitOutput}
use lp_0002_private_multisig.Core.Program.{ValidityWindow, is_valid_for}
use lp_0002_private_multisig.State.Types.{
  LeeError, InvalidInput, invalid_input, out_of_validity_window, invalid_privacy_preserving_proof,
  invalid_program_bytecode, program_already_exists, Program, CommitmentSet, V03State, StateDiff,
  get_account_by_id, signer_account_ids, all_valid,
}
use lp_0002_private_multisig.State.Checks.{check_nonces, input_pre_states}

pub record PublicActionWithId : Type 0 where
  pub account_id : AccountId
  pub post_state : Account

-- `Message` and `WitnessSet` of a privacy preserving transaction.
pub record PrivacyMessage : Type 0 where
  pub public_actions : List PublicActionWithId
  pub nonces : List ℕ
  pub private_actions : List PrivateAction
  pub block_validity_window : ValidityWindow
  pub timestamp_validity_window : ValidityWindow

pub record PrivacyWitnessSet : Type 0 where
  pub signatures_and_public_keys : List (Bytes × Bytes)
  pub proof : Bytes

pub record PrivacyPreservingTransaction : Type 0 where
  pub message : PrivacyMessage
  pub witness_set : PrivacyWitnessSet

-- What the crate calls and does not implement: SHA-256, the hash of the message's borsh bytes, Schnorr
-- verification, the check of a receipt against the circuit's image id, and the image id of an ELF.
pub record PrivacyHost : Type 0 where
  pub sha256 : Bytes → Bytes
  pub message_hash : PrivacyMessage → Bytes
  pub signature_is_valid : Bytes → Bytes → Bytes → Bool
  pub proof_is_valid : Bytes → CircuitOutput → Bool
  pub compute_image_id : Bytes → Option ProgramId

-- `Message::commitments`, `Message::nullifiers`, `Message::public_account_ids`
unfoldable pub commitments : List PrivateAction → List Commitment
commitments [] = []
commitments (action ∷ actions) = action.commitment ∷ commitments actions

unfoldable pub nullifiers : List PrivateAction → List (Nullifier × CommitmentSetDigest)
nullifiers [] = []
nullifiers (action ∷ actions) = (action.nullifier, action.root) ∷ nullifiers actions

unfoldable pub public_account_ids : List PublicActionWithId → List AccountId
public_account_ids [] = []
public_account_ids (action ∷ actions) = action.account_id ∷ public_account_ids actions

-- `.map(|(n, _)| n)`
abbrev pub first_of : List (Nullifier × CommitmentSetDigest) → List Nullifier
first_of [] = []
first_of ((nullifier, digest) ∷ rest) = nullifier ∷ first_of rest

-- The `public_actions` of the output that is checked: pre states and actions in pairs.
unfoldable pub zip_actions : List AccountWithMetadata → List PublicActionWithId → List PublicAction
zip_actions (pre ∷ pres) (action ∷ actions) =
    record { pre = pre; post = action.post_state } ∷ zip_actions pres actions
zip_actions _ _ = []

-- `CommitmentSet::contains`
unfoldable pub contains_commitment : CommitmentSet → Commitment → Bool
contains_commitment set commitment = HashMap.contains_key set.commitments commitment

unfoldable pub check_commitments_are_new : V03State → List Commitment → Result LeeError (Unit {0})
check_commitments_are_new state [] = ok tt
check_commitments_are_new state (c ∷ cs) = do
  ensure (not (contains_commitment state.commitment_set c))
      (invalid_input InvalidInput.commitment_already_seen)
  check_commitments_are_new state cs

unfoldable pub check_nullifiers_are_valid :
    V03State → List (Nullifier × CommitmentSetDigest) → Result LeeError (Unit {0})
check_nullifiers_are_valid state [] = ok tt
check_nullifiers_are_valid state ((nullifier, digest) ∷ rest) = do
  ensure (not (contains state.nullifier_set nullifier))
      (invalid_input InvalidInput.nullifier_already_seen)
  ensure (contains state.commitment_set.root_history digest)
      (invalid_input InvalidInput.unrecognized_digest)
  check_nullifiers_are_valid state rest

-- The collection of the public actions into a map: a later one replaces an earlier one.
unfoldable pub collect_actions : HashMap Account → List PublicActionWithId → HashMap Account
collect_actions m [] = m
collect_actions m (action ∷ actions) =
    collect_actions (HashMap.insert m action.account_id action.post_state) actions

module _ (host : PrivacyHost) (state : V03State) where
  -- `check_privacy_preserving_circuit_proof_is_valid`
  unfoldable pub check_proof :
      Bytes → List AccountWithMetadata → PrivacyMessage → Result LeeError (Unit {0})
  unfolding zip_actions
  check_proof proof public_pre_states message =
      let output : CircuitOutput = record {
        public_actions = zip_actions public_pre_states message.public_actions;
        private_actions = message.private_actions;
        block_validity_window = message.block_validity_window;
        timestamp_validity_window = message.timestamp_validity_window;
      } in
      ensure (host.proof_is_valid proof output) invalid_privacy_preserving_proof

  abbrev pub privacy_signers : PrivacyPreservingTransaction → List AccountId
  privacy_signers tx = signer_account_ids host.sha256 tx.witness_set.signatures_and_public_keys

  unfoldable pub from_privacy_preserving_transaction :
      (block_id timestamp : ℕ) → PrivacyPreservingTransaction → Result LeeError StateDiff
  from_privacy_preserving_transaction block_id timestamp tx = do
    let message = tx.message
    let witnesses = tx.witness_set.signatures_and_public_keys
    let new_commitments = commitments message.private_actions
    let new_nullifiers = nullifiers message.private_actions
    let account_ids = public_account_ids message.public_actions
    ensure (not (length message.private_actions == 0))
        (invalid_input InvalidInput.empty_private_actions)
    ensure (n_unique account_ids == length account_ids)
        (invalid_input InvalidInput.duplicate_account_ids)
    ensure (n_unique (first_of new_nullifiers) == length new_nullifiers)
        (invalid_input InvalidInput.duplicate_nullifiers)
    ensure (n_unique new_commitments == length new_commitments)
        (invalid_input InvalidInput.duplicate_commitments)
    ensure (length message.nonces == length witnesses)
        (invalid_input InvalidInput.nonce_count_mismatch)
    ensure (all_valid host.signature_is_valid (host.message_hash message) witnesses)
        (invalid_input InvalidInput.invalid_signature)
    let signers = privacy_signers tx
    check_nonces state.public_state signers message.nonces
    ensure
        (is_valid_for message.block_validity_window block_id
          && is_valid_for message.timestamp_validity_window timestamp)
        out_of_validity_window
    check_proof tx.witness_set.proof (input_pre_states state signers account_ids) message
    check_commitments_are_new state new_commitments
    check_nullifiers_are_valid state new_nullifiers
    ok (record {
      signer_account_ids = signers;
      public_diff = collect_actions [] message.public_actions;
      new_commitments = new_commitments;
      new_nullifiers = first_of new_nullifiers;
      program = none;
    })

  -- `Program::new`, and the transaction by its bytecode.
  unfoldable pub program_new : Bytes → Result LeeError Program
  program_new elf = do
    id ← ok_or (host.compute_image_id elf) invalid_program_bytecode
    ok (record { id = id; elf = elf })

  unfoldable pub from_program_deployment_transaction :
      (bytecode : Bytes) → Result LeeError StateDiff
  unfolding program_new
  from_program_deployment_transaction bytecode = do
    program ← program_new bytecode
    ensure (not (HashMap.contains_key state.programs program.id)) program_already_exists
    ok (record {
      signer_account_ids = [];
      public_diff = [];
      new_commitments = [];
      new_nullifiers = [];
      program = some program;
    })
