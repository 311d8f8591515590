-- ===== src/Chain/Blocks.antt =====
-- `apply_block` of lez/chain_state/src/apply.rs.
use lp_0002_private_multisig.Prelude.{
  ℕ, ◌+◌, Bool, true, false, ◌&&◌, Option, none, some, List, [], ◌∷◌, Bytes, bytes_eq, length, ltb,
  ◌==◌, if◌then◌else◌, ok, err, ◌>>=◌, ◌>>◌, ensure, ok_or,
}
use lp_0002_private_multisig.State.Types.{V03State, PublicTransaction}
use lp_0002_private_multisig.Chain.Types.{
  rejected, panicked, Outcome, rename_error, LeeTransaction, public_transaction, privacy_preserving,
  program_deployment, Block, ChainHost, u64_mod, genesis_block_id, recompute_hash, clock_invocation,
  Tip, BlockIngestError, unexpected_block_id, broken_chain_link, hash_mismatch, empty_block,
  invalid_clock_transaction, non_public_genesis_transaction, state_transition,
}
use lp_0002_private_multisig.Chain.Transactions.{execute_on_state}

-- `split_last`: the last element and those before it.
unfoldable pub split_last : {A : Type 0} → List A → Option (A × List A)
split_last [] = none
split_last (x ∷ xs) = elim (split_last xs) [
  | none ↦ some (x, [])
  | some (last, before) ↦ some (last, x ∷ before)
]

-- The derived `PartialEq` of public transactions.
unfoldable pub all_eq : {A : Type 0} → (A → A → Bool) → List A → List A → Bool
all_eq eq [] [] = true
all_eq eq (x ∷ xs) (y ∷ ys) = eq x y && all_eq eq xs ys
all_eq eq _ _ = false

abbrev pub pair_eq : Bytes × Bytes → Bytes × Bytes → Bool
pair_eq x y = bytes_eq x.0 y.0 && bytes_eq x.1 y.1

unfoldable pub public_transaction_eq : PublicTransaction → PublicTransaction → Bool
unfolding all_eq
public_transaction_eq x y =
    bytes_eq x.message.program_id y.message.program_id
    && all_eq bytes_eq x.message.account_ids y.message.account_ids
    && bytes_eq x.message.nonces y.message.nonces
    && bytes_eq x.message.instruction_data y.message.instruction_data
    && all_eq pair_eq x.witness_set.signatures_and_public_keys
        y.witness_set.signatures_and_public_keys

abbrev pub reject : {A : Type 0} → BlockIngestError → Outcome BlockIngestError A
reject e = err (rejected e)

module _ (chain : ChainHost) where
  unfoldable pub validate_against_tip : Option Tip → Block → Outcome BlockIngestError (Unit {0})
  validate_against_tip tip block = do
    let header = block.header
    let computed = recompute_hash chain block
    ensure (bytes_eq computed header.hash) (rejected (hash_mismatch computed header.hash))
    (elim tip [
      | none ↦
          ensure (header.block_id == genesis_block_id)
            (rejected (unexpected_block_id genesis_block_id header.block_id))
      | some t ↦
          ensure (ltb (t.block_id + 1) u64_mod) panicked
          >> ensure (header.block_id == t.block_id + 1)
              (rejected (unexpected_block_id (t.block_id + 1) header.block_id))
          >> ensure (bytes_eq header.prev_block_hash t.hash)
              (rejected (broken_chain_link t.hash header.prev_block_hash))
    ])

  -- One transaction of a block: in the genesis block only a public one.
  unfoldable pub apply_transaction :
      Block → (tx_index : ℕ) → LeeTransaction → V03State → Outcome BlockIngestError V03State
  apply_transaction block tx_index (public_transaction tx) state =
      rename_error (state_transition tx_index) (
        execute_on_state chain state block.header.block_id block.header.timestamp
          (public_transaction tx))
  apply_transaction block tx_index (privacy_preserving tx) state =
      if block.header.block_id == genesis_block_id
      then reject non_public_genesis_transaction
      else rename_error (state_transition tx_index) (
          execute_on_state chain state block.header.block_id block.header.timestamp
            (privacy_preserving tx))
  apply_transaction block tx_index (program_deployment bytecode) state =
      if block.header.block_id == genesis_block_id
      then reject non_public_genesis_transaction
      else rename_error (state_transition tx_index) (
          execute_on_state chain state block.header.block_id block.header.timestamp
            (program_deployment bytecode))

  -- The loop over the users' transactions.
  unfoldable pub apply_transactions :
      Block → (tx_index : ℕ) → List LeeTransaction → V03State → Outcome BlockIngestError V03State
  unfolding apply_transaction
  apply_transactions block tx_index [] state = ok state
  apply_transactions block tx_index (tx ∷ txs) state = do
    next ← apply_transaction block tx_index tx state
    apply_transactions block (tx_index + 1) txs next

  unfoldable pub check_clock : Block → LeeTransaction → Outcome BlockIngestError PublicTransaction
  check_clock block (public_transaction tx) =
      if public_transaction_eq tx (clock_invocation chain block.header.timestamp)
      then ok tx
      else reject invalid_clock_transaction
  check_clock block _ = reject invalid_clock_transaction

  unfoldable pub apply_block_to_state : Block → V03State → Outcome BlockIngestError V03State
  unfolding check_clock apply_transactions
  apply_block_to_state block state = do
    (last, user_txs) ← ok_or (split_last block.body.transactions) (rejected empty_block)
    clock_tx ← check_clock block last
    applied ← apply_transactions block 0 user_txs state
    rename_error (state_transition (length user_txs)) (
        execute_on_state chain applied block.header.block_id block.header.timestamp
          (public_transaction clock_tx))

  unfoldable pub apply_block : Option Tip → Block → V03State → Outcome BlockIngestError V03State
  unfolding validate_against_tip apply_block_to_state
  apply_block tip block state = do validate_against_tip tip block; apply_block_to_state block state
