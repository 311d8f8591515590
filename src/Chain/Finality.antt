-- ===== src/Chain/Finality.antt =====
-- The final tier of a `ChainState`: the blocks that lez/chain_state/src/chain.rs finalizes.
use lp_0002_private_multisig.Prelude.{
  ℕ, suc, none, some, Bytes, take, drop, if◌then◌else◌, Result, ok, err, ◌>>=◌,
}
use lp_0002_private_multisig.Chain.Types.{
  Panic, panic, expect, rejected, panicked, Block, ChainHost, tip_of, BlockIngestError, new_stall,
  escalate,
}
use lp_0002_private_multisig.Chain.Blocks.{apply_block}
use lp_0002_private_multisig.Chain.Tiers.{
  AcceptOutcome, applied, already_applied, parked, ChainState, from_final, position,
  head_position_of, is_parent_of, is_redelivery, replay,
}

unfoldable pub record_final_stall :
    ChainState → Block → (l1_slot : ℕ) → BlockIngestError → ChainState
record_final_stall c block l1_slot error = record c {
  final_stall = some (elim c.final_stall [
    | none ↦ new_stall (some block.header) l1_slot error
    | some stall ↦ escalate stall
  ]);
}

module _ (chain : ChainHost) where
  unfoldable pub finalize_through : ChainState → (idx : ℕ) → Result Panic ChainState
  unfolding replay
  finalize_through c idx = do
    (state, tip) ← expect (replay chain c.final_tip c.final_state (take (suc idx) c.head_blocks))
    ok (record c {
      final_state = state;
      final_tip = tip;
      final_stall = none;
      head_blocks = drop (suc idx) c.head_blocks;
    })

  unfoldable pub apply_finalized_direct :
      ChainState → Block → (l1_slot : ℕ) → Result Panic (ChainState × AcceptOutcome)
  unfolding record_final_stall
  apply_finalized_direct c block l1_slot =
      if is_redelivery c.final_tip block
      then ok (c, already_applied)
      else elim (apply_block chain c.final_tip block c.final_state) [
        | err (rejected error) ↦ ok (record_final_stall c block l1_slot error, parked error)
        | err panicked ↦ err panic
        | ok scratch ↦ ok (from_final scratch (some (tip_of block)), applied)
      ]

  -- A block that chains on an entry of the head finalizes the head up to there.
  unfoldable pub finalize_parent : ChainState → Block → Result Panic ChainState
  unfolding finalize_through
  finalize_parent c block = elim (position (is_parent_of block) c.head_blocks) [
    | none ↦ ok c
    | some idx ↦ finalize_through c idx
  ]

  unfoldable pub apply_finalized :
      ChainState
      → (this_msg : Bytes) → Block
      → (l1_slot : ℕ) → Result Panic (ChainState × AcceptOutcome)
  unfolding head_position_of finalize_through finalize_parent apply_finalized_direct
  apply_finalized c this_msg block l1_slot = elim (head_position_of c this_msg block) [
    | some idx ↦ finalize_through c idx >>= λ next. ok (next, applied)
    | none ↦ finalize_parent c block >>= λ next. apply_finalized_direct next block l1_slot
  ]
