-- ===== src/Chain/Head.antt =====
-- The head of a `ChainState`: the blocks that lez/chain_state/src/chain.rs adopts, produces, reverts and
-- restores.
use lp_0002_private_multisig.Prelude.{
  ℕ, Option, none, some, List, [], ◌∷◌, ◌++◌, Bytes, length, take, leb, if◌then◌else◌, Result, ok,
  err, ◌>>=◌,
}
use lp_0002_private_multisig.State.Types.{V03State}
use lp_0002_private_multisig.Chain.Types.{
  Outcome, Panic, panic, rejected, panicked, Block, ChainHost, Tip, BlockIngestError,
}
use lp_0002_private_multisig.Chain.Blocks.{apply_block}
use lp_0002_private_multisig.Chain.Tiers.{
  AcceptOutcome, applied, already_applied, parked, HeadEntry, ChainState, head_tip, position,
  head_position_of, at_or_above, not_above, replay_head_prefix,
}

-- The least position of an orphan in the head.
unfoldable pub earliest_orphan : ChainState → List (Bytes × Block) → Option ℕ
unfolding head_position_of
earliest_orphan c [] = none
earliest_orphan c ((this_msg, block) ∷ rest) =
    let later = earliest_orphan c rest in
    elim (head_position_of c this_msg block) [
      | none ↦ later
      | some idx ↦ elim later [
        | none ↦ some idx
        | some other ↦ some (if leb idx other then idx else other)
      ]
    ]

module _ (chain : ChainHost) where
  -- `head_blocks.truncate(idx)` and `rederive_head`
  unfoldable pub truncate_head : ChainState → (idx : ℕ) → Result Panic ChainState
  unfolding replay_head_prefix
  truncate_head c idx = do
    let kept = record c { head_blocks = take idx c.head_blocks }
    (state, tip) ← replay_head_prefix chain kept (length kept.head_blocks)
    ok (record kept { head_state = state })

  -- A block on the head without the later entries: the state and the tip there are given.
  unfoldable pub extend_head :
      ChainState
      → (kept : List HeadEntry) → (base : V03State × Option Tip) → (this_msg : Bytes) → Block
      → Result Panic (ChainState × AcceptOutcome)
  extend_head c kept base this_msg block = elim (apply_block chain base.1 block base.0) [
    | err (rejected error) ↦ ok (c, parked error)
    | err panicked ↦ err panic
    | ok scratch ↦ ok (
      record c {
        head_state = scratch;
        head_blocks = kept ++ record { this_msg = this_msg; block = block } ∷ [];
      },
      applied,
    )
  ]

  -- Where a block is applied: on the head, or in the place of the entries at its height and above.
  unfoldable pub adopt :
      ChainState → (this_msg : Bytes) → Block → Result Panic (ChainState × AcceptOutcome)
  unfolding extend_head replay_head_prefix
  adopt c this_msg block = elim (position (at_or_above block.header.block_id) c.head_blocks) [
    | none ↦ extend_head c c.head_blocks (c.head_state, head_tip c) this_msg block
    | some idx ↦ replay_head_prefix chain c idx >>= λ base.
        extend_head c (take idx c.head_blocks) base this_msg block
  ]

  unfoldable pub apply_adopted :
      ChainState → (this_msg : Bytes) → Block → Result Panic (ChainState × AcceptOutcome)
  unfolding head_position_of adopt
  apply_adopted c this_msg block = elim (head_position_of c this_msg block) [
    | some idx ↦ ok (c, already_applied)
    | none ↦ if not_above c.final_tip block then ok (c, already_applied) else adopt c this_msg block
  ]

  unfoldable pub apply_produced :
      ChainState → (this_msg : Bytes) → Block → Result Panic (ChainState × AcceptOutcome)
  unfolding apply_adopted
  apply_produced c this_msg block =
      if not_above (head_tip c) block
      then ok (c, already_applied)
      else apply_adopted c this_msg block

  unfoldable pub revert_orphan : ChainState → (this_msg : Bytes) → Block → Result Panic ChainState
  unfolding head_position_of truncate_head
  revert_orphan c this_msg block = elim (head_position_of c this_msg block) [
    | none ↦ ok c
    | some idx ↦ truncate_head c idx
  ]

  -- The orphans of a channel update are reverted at once.
  unfoldable pub revert_orphans : ChainState → List (Bytes × Block) → Result Panic ChainState
  unfolding earliest_orphan truncate_head
  revert_orphans c orphaned = elim (earliest_orphan c orphaned) [
    | none ↦ ok c
    | some idx ↦ truncate_head c idx
  ]

  unfoldable pub apply_all_adopted :
      ChainState → List (Bytes × Block) → Result Panic (ChainState × List AcceptOutcome)
  unfolding apply_adopted
  apply_all_adopted c [] = ok (c, [])
  apply_all_adopted c ((this_msg, block) ∷ rest) = do
    (next, outcome) ← apply_adopted c this_msg block
    (last, outcomes) ← apply_all_adopted next rest
    ok (last, outcome ∷ outcomes)

  unfoldable pub apply_channel_update :
      ChainState
      → (orphaned adopted : List (Bytes × Block)) → Result Panic (ChainState × List AcceptOutcome)
  unfolding revert_orphans apply_all_adopted
  apply_channel_update c orphaned adopted = do
    reverted ← revert_orphans c orphaned
    apply_all_adopted reverted adopted

  unfoldable pub restore_head_block : ChainState → Block → Outcome BlockIngestError ChainState
  restore_head_block c block = do
    next ← apply_block chain (head_tip c) block c.head_state
    ok (record c {
      head_state = next;
      head_blocks = c.head_blocks ++ record { this_msg = block.header.hash; block = block } ∷ [];
    })
