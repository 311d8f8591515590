-- ===== src/State/Types.antt =====
-- The state and the transactions: state/mod.rs, error.rs, public_transaction/, program/mod.rs.
use lp_0002_private_multisig.Prelude.{
  ℕ, ◌++◌, Bool, true, false, Option, none, some, List, [], ◌∷◌, Bytes, codes, replicate,
  if◌then◌else◌, Result,
}
use lp_0002_private_multisig.Prelude.HashMap
use lp_0002_private_multisig.Prelude.HashMap.{HashMap}
use lp_0002_private_multisig.Core.Account.{
  ProgramId, AccountId, Account, AccountWithMetadata, default_account,
}
use lp_0002_private_multisig.Core.Program.{InstructionData, ProgramOutput}
use lp_0002_private_multisig.Core.Validation.{ExecutionValidationError}
use lp_0002_private_multisig.MerkleTree.{MerkleTree}

-- `InvalidInput` by its message; the others by their constructor. Fields that only carry the two
-- compared values are left out.
pub data InvalidInput : Type 0 where
  no_accounts duplicate_account_ids nonce_count_mismatch invalid_signature nonce_mismatch :
      InvalidInput
  unknown_program : InvalidInput
  empty_private_actions duplicate_nullifiers duplicate_commitments : InvalidInput
  commitment_already_seen nullifier_already_seen unrecognized_digest : InvalidInput
  restricted_system_account bridge_modified_privately restricted_bridge_account : InvalidInput

pub data InvalidProgramBehavior : Type 0 where
  inconsistent_account_pre_state invalid_account_authorization : AccountId → InvalidProgramBehavior
  authorized_account_marked_as_not_authorized : AccountId → InvalidProgramBehavior
  mismatched_program_id mismatched_caller_program_id : InvalidProgramBehavior
  execution_validation_failed : ExecutionValidationError → InvalidProgramBehavior
  claimed_non_default_account claimed_unauthorized_account : AccountId → InvalidProgramBehavior
  mismatched_pda_claim : (expected actual : AccountId) → InvalidProgramBehavior
  default_account_modified_without_claim : AccountId → InvalidProgramBehavior
  declared_account_missing_from_output : AccountId → InvalidProgramBehavior

pub data LeeError : Type 0 where
  invalid_input : InvalidInput → LeeError
  invalid_program_behavior : InvalidProgramBehavior → LeeError
  program_execution_failed : LeeError
  max_chained_calls_depth_exceeded : LeeError
  out_of_validity_window : LeeError
  invalid_privacy_preserving_proof : LeeError
  invalid_program_bytecode : LeeError
  program_already_exists : LeeError

pub record Program : Type 0 where
  pub id : ProgramId
  pub elf : Bytes

pub record CommitmentSet : Type 0 where
  pub merkle_tree : MerkleTree
  pub commitments : HashMap ℕ
  pub root_history : List Bytes

pub record V03State : Type 0 where
  pub public_state : HashMap Account
  pub commitment_set : CommitmentSet
  pub nullifier_set : List Bytes
  pub programs : HashMap Program

abbrev pub account_or_default : Option Account → Account
account_or_default none = default_account
account_or_default (some a) = a

-- `get_account_by_id`, on the map.
unfoldable pub lookup_account : HashMap Account → AccountId → Account
lookup_account m id = account_or_default (HashMap.get m id)

abbrev pub get_account_by_id : V03State → AccountId → Account
get_account_by_id s id = lookup_account s.public_state id

-- `Message` and `WitnessSet` of a public transaction.
pub record Message : Type 0 where
  pub program_id : ProgramId
  pub account_ids : List AccountId
  pub nonces : List ℕ
  pub instruction_data : InstructionData

pub record WitnessSet : Type 0 where
  pub signatures_and_public_keys : List (Bytes × Bytes)

pub record PublicTransaction : Type 0 where
  pub message : Message
  pub witness_set : WitnessSet

-- What the crate calls and does not implement: SHA-256, the zkVM that runs a program's ELF on the
-- inputs and decodes its journal, the hash of a message's borsh bytes, and Schnorr verification.
pub record Host : Type 0 where
  pub sha256 : Bytes → Bytes
  pub execute :
      Program
      → Option ProgramId
      → List AccountWithMetadata
      → InstructionData
      → Result LeeError ProgramOutput
  pub message_hash : Message → Bytes
  pub signature_is_valid : Bytes → Bytes → Bytes → Bool

-- `MAX_NUMBER_CHAINED_CALLS`
abbrev pub max_number_chained_calls : ℕ
max_number_chained_calls = 10

-- `impl From<&PublicKey> for AccountId`
unfoldable pub public_account_id : (Bytes → Bytes) → Bytes → AccountId
public_account_id sha256 key =
    sha256 ((codes "/LEE/v0.3/AccountId/Public/" ++ replicate 5 0) ++ key)

-- `PublicTransaction::signer_account_ids`
unfoldable pub signer_account_ids : (Bytes → Bytes) → List (Bytes × Bytes) → List AccountId
signer_account_ids sha256 [] = []
signer_account_ids sha256 ((signature, key) ∷ rest) =
    public_account_id sha256 key ∷ signer_account_ids sha256 rest

-- `WitnessSet::is_valid_for`, at the message's hash.
unfoldable pub all_valid : (Bytes → Bytes → Bytes → Bool) → Bytes → List (Bytes × Bytes) → Bool
all_valid is_valid hash [] = true
all_valid is_valid hash ((signature, key) ∷ rest) =
    if is_valid signature hash key then all_valid is_valid hash rest else false

-- `StateDiff`
pub record StateDiff : Type 0 where
  pub signer_account_ids : List AccountId
  pub public_diff : HashMap Account
  pub new_commitments : List Bytes
  pub new_nullifiers : List Bytes
  pub program : Option Program
