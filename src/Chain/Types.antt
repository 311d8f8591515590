-- ===== src/Chain/Types.antt =====
-- Blocks and transactions of lez/common/src: block.rs and transaction.rs; the tip and the errors of
-- lez/chain_state/src: apply.rs, ingest_error.rs, stall_reason.rs; the clock's accounts of
-- lez/programs/clock/core/src/lib.rs, and the addresses of lez/system_accounts/src/lib.rs.
use lp_0002_private_multisig.Prelude.{
  ℕ, ◌+◌, ◌^◌, Bool, true, false, Option, none, some, List, [], ◌∷◌, ◌++◌, Bytes, codes, replicate,
  ltb, if◌then◌else◌, Result, ok, err,
}
use lp_0002_private_multisig.Core.Account.{AccountId, ProgramId}
use lp_0002_private_multisig.Core.Keys.{for_public_pda}
use lp_0002_private_multisig.Core.Program.{InstructionData}
use lp_0002_private_multisig.State.Types.{LeeError, Host, PublicTransaction}
use lp_0002_private_multisig.State.Private.{PrivacyHost, PrivacyPreservingTransaction}

-- How code ends that may also panic.
pub data Failure (E : Type 0) : Type 0 where
  rejected : E → Failure E
  panicked : Failure E

abbrev pub Outcome : Type 0 → Type 0 → Type 0
Outcome E A = Result (Failure E) A

-- A fallible call inside such code, with its error under another name.
abbrev pub with_error : {E F A : Type 0} → (E → F) → Result E A → Outcome F A
with_error name (err e) = err (rejected (name e))
with_error name (ok a) = ok a

abbrev pub rename_error : {E F A : Type 0} → (E → F) → Outcome E A → Outcome F A
rename_error name (err (rejected e)) = err (rejected (name e))
rename_error name (err panicked) = err panicked
rename_error name (ok a) = ok a

-- How code ends that only panics, and the `expect` on a result.
pub data Panic : Type 0 where
  panic : Panic

abbrev pub expect : {E A : Type 0} → Result E A → Result Panic A
expect (err e) = err panic
expect (ok a) = ok a

pub data LeeTransaction : Type 0 where
  public_transaction : PublicTransaction → LeeTransaction
  privacy_preserving : PrivacyPreservingTransaction → LeeTransaction
  program_deployment : (bytecode : Bytes) → LeeTransaction

pub data TxKind : Type 0 where
  public_kind privacy_preserving_kind program_deployment_kind : TxKind

pub data TransactionMalformationError : Type 0 where
  invalid_transaction_signature : TransactionMalformationError

pub record BlockHeader : Type 0 where
  pub block_id : ℕ
  pub prev_block_hash : Bytes
  pub hash : Bytes
  pub timestamp : ℕ
  pub signature : Bytes

pub data BedrockStatus : Type 0 where
  pending safe finalized : BedrockStatus

pub record BlockBody : Type 0 where
  pub transactions : List LeeTransaction

pub record Block : Type 0 where
  pub header : BlockHeader
  pub body : BlockBody
  pub bedrock_status : BedrockStatus

pub record HashableBlockData : Type 0 where
  pub block_id : ℕ
  pub prev_block_hash : Bytes
  pub timestamp : ℕ
  pub transactions : List LeeTransaction

-- What the crates call and do not implement: the two hosts of the state machine, the derived borsh
-- encoding of a block's data, the ids of the built programs, the words of the clock's instruction, the
-- hash of a transaction, and the signatures of blocks.
pub record ChainHost : Type 0 where
  pub host : Host
  pub privacy : PrivacyHost
  pub block_bytes : HashableBlockData → Bytes
  pub clock_id : ProgramId
  pub faucet_id : ProgramId
  pub bridge_id : ProgramId
  pub clock_words : (timestamp : ℕ) → InstructionData
  pub sign : (signing_key hash : Bytes) → Bytes

abbrev pub u64_mod : ℕ
u64_mod = 2 ^ 64

-- `GENESIS_BLOCK_ID`
abbrev pub genesis_block_id : ℕ
genesis_block_id = 1

-- `CLOCK_PROGRAM_ACCOUNT_IDS`
abbrev pub clock_account_ids : List AccountId
clock_account_ids =
    codes "/LEZ/ClockProgramAccount/0000001"
    ∷ codes "/LEZ/ClockProgramAccount/0000010"
    ∷ codes "/LEZ/ClockProgramAccount/0000050"
    ∷ []

module _ (chain : ChainHost) where
  -- `compute_faucet_account_id`, `compute_bridge_account_id`
  unfoldable pub faucet_account_id : AccountId
  faucet_account_id =
      for_public_pda chain.host.sha256 chain.faucet_id (codes "/LEZ/v0.3/FaucetSeed/0000000000/")

  unfoldable pub bridge_account_id : AccountId
  bridge_account_id =
      for_public_pda chain.host.sha256 chain.bridge_id (codes "/LEZ/v0.3/BridgeSeed/0000000000/")

  unfoldable pub compute_hash : HashableBlockData → Bytes
  compute_hash b =
      chain.host.sha256 ((codes "/LEE/v0.3/Message/Block/" ++ replicate 8 0) ++ chain.block_bytes b)

  -- `HashableBlockData::from`
  abbrev pub hashable : Block → HashableBlockData
  hashable block = record {
    block_id = block.header.block_id;
    prev_block_hash = block.header.prev_block_hash;
    timestamp = block.header.timestamp;
    transactions = block.body.transactions;
  }

  unfoldable pub recompute_hash : Block → Bytes
  unfolding compute_hash
  recompute_hash block = compute_hash (hashable block)

  unfoldable pub into_pending_block : HashableBlockData → (signing_key : Bytes) → Block
  unfolding compute_hash
  into_pending_block b signing_key =
      let hash = compute_hash b in
      record {
        header = record {
          block_id = b.block_id;
          prev_block_hash = b.prev_block_hash;
          hash = hash;
          timestamp = b.timestamp;
          signature = chain.sign signing_key hash;
        };
        body = record { transactions = b.transactions };
        bedrock_status = pending;
      }

  unfoldable pub is_signed_by : Block → (expected_pubkey : Bytes) → Bool
  unfolding compute_hash
  is_signed_by block expected_pubkey =
      chain.host.signature_is_valid block.header.signature (compute_hash (hashable block))
        expected_pubkey

  -- The canonical last transaction of a block.
  unfoldable pub clock_invocation : (timestamp : ℕ) → PublicTransaction
  clock_invocation timestamp = record {
    message = record {
      program_id = chain.clock_id;
      account_ids = clock_account_ids;
      nonces = [];
      instruction_data = chain.clock_words timestamp;
    };
    witness_set = record { signatures_and_public_keys = [] };
  }

-- The parent that the next block must chain on.
pub record Tip : Type 0 where
  pub block_id : ℕ
  pub hash : Bytes

-- `impl From<&Block> for Tip`
abbrev pub tip_of : Block → Tip
tip_of block = record { block_id = block.header.block_id; hash = block.header.hash }

-- The reason of `StateTransition` is the error that the source formats.
pub data BlockIngestError : Type 0 where
  deserialize : (message : Bytes) → BlockIngestError
  unexpected_block_id : (expected got : ℕ) → BlockIngestError
  broken_chain_link : (expected_prev got_prev : Bytes) → BlockIngestError
  hash_mismatch : (computed header : Bytes) → BlockIngestError
  empty_block invalid_clock_transaction non_public_genesis_transaction : BlockIngestError
  state_transition : (tx_index : ℕ) (reason : LeeError) → BlockIngestError

unfoldable pub is_retryable : BlockIngestError → Bool
is_retryable (state_transition tx_index reason) = true
is_retryable _ = false

pub record StallReason : Type 0 where
  pub block_id : Option ℕ
  pub block_hash : Option Bytes
  pub prev_block_hash : Option Bytes
  pub l1_slot : ℕ
  pub error : BlockIngestError
  pub first_seen : Option ℕ
  pub orphans_since : ℕ

-- `StallReason::new`, with a header and without.
unfoldable pub new_stall : Option BlockHeader → (l1_slot : ℕ) → BlockIngestError → StallReason
new_stall none l1_slot error = record {
  block_id = none;
  block_hash = none;
  prev_block_hash = none;
  l1_slot = l1_slot;
  error = error;
  first_seen = none;
  orphans_since = 0;
}
new_stall (some header) l1_slot error = record {
  block_id = some header.block_id;
  block_hash = some header.hash;
  prev_block_hash = some header.prev_block_hash;
  l1_slot = l1_slot;
  error = error;
  first_seen = some header.timestamp;
  orphans_since = 0;
}

-- `escalate`: the count saturates.
unfoldable pub escalate : StallReason → StallReason
escalate stall = record stall {
  orphans_since =
      if ltb (stall.orphans_since + 1) u64_mod
      then stall.orphans_since + 1
      else stall.orphans_since;
}
