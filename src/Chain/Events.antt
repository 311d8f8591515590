-- ===== src/Chain/Events.antt =====
-- Sequences of events at a chain: what its head and its final tier are after any of them.
use lp_0002_private_multisig.Prelude.{
  ℕ, ◌+◌, ◌≡◌, refl, Option, none, some, List, [], ◌∷◌, Bytes, bytes_eq_iff, ==_iff, Result, ok,
  err, ◌>>=◌, arith,
}
use lp_0002_private_multisig.State.Types.{V03State}
use lp_0002_private_multisig.Chain.Types.{
  ChainHost, Block, Tip, tip_of, Panic, expect, genesis_block_id, recompute_hash,
}
use lp_0002_private_multisig.Chain.Blocks.{apply_block, validate_against_tip}
use lp_0002_private_multisig.Chain.Tiers.{HeadEntry, ChainState, from_final, last_tip, replay}
use lp_0002_private_multisig.Chain.Head.{
  apply_adopted, apply_produced, revert_orphan, apply_channel_update, restore_head_block,
}
use lp_0002_private_multisig.Chain.Finality.{apply_finalized}
use lp_0002_private_multisig.Chain.Replays.{replay_cons}
use lp_0002_private_multisig.Chain.Consistency.{
  IsConsistent, apply_adopted-IsConsistent, apply_produced-IsConsistent, revert_orphan-IsConsistent,
  restore_head_block-IsConsistent, apply_channel_update-IsConsistent,
}
use lp_0002_private_multisig.Chain.Finalization.{apply_finalized-IsConsistent}

pub data Event : Type 0 where
  adopted produced orphaned : (this_msg : Bytes) → Block → Event
  channel_update : (orphans adoptions : List (Bytes × Block)) → Event
  restored : Block → Event
  finalized : (this_msg : Bytes) → Block → (l1_slot : ℕ) → Event

-- The block is the valid continuation of a tip.
abbrev pub Follows : ChainHost → Option Tip → Block → Type 0
Follows chain none block =
    (recompute_hash chain block ≡ block.header.hash) × (block.header.block_id ≡ genesis_block_id)
Follows chain (some tip) block =
    (recompute_hash chain block ≡ block.header.hash)
    × (block.header.block_id ≡ tip.block_id + 1)
    × (block.header.prev_block_hash ≡ tip.hash)

-- The blocks are linked, from a tip on.
abbrev pub IsLinked : ChainHost → Option Tip → List HeadEntry → Type 0
IsLinked chain tip [] = Unit {0}
IsLinked chain tip (entry ∷ entries) =
    Follows chain tip entry.block × IsLinked chain (some (tip_of entry.block)) entries

module _ (chain : ChainHost) where
  apply_block-Follows :
      (tip : Option Tip) (block : Block) (state : V03State) {next : V03State}
      → apply_block chain tip block state ≡ ok next
      → Follows chain tip block
  unfolding apply_block validate_against_tip
  apply_block-Follows none block state h =
      let header = block.header in
      (
        (bytes_eq_iff (recompute_hash chain block) header.hash).0 (ground (arith, h)),
        (==_iff header.block_id genesis_block_id).0 (ground (arith, h)),
      )
  apply_block-Follows (some tip) block state h =
      let header = block.header in
      (
        (bytes_eq_iff (recompute_hash chain block) header.hash).0 (ground (arith, h)),
        (==_iff header.block_id (tip.block_id + 1)).0 (ground (arith, h)),
        (bytes_eq_iff header.prev_block_hash tip.hash).0 (ground (arith, h)),
      )

  replay-IsLinked :
      (tip : Option Tip) (state : V03State) (entries : List HeadEntry)
      {result : V03State × Option Tip}
      → replay chain tip state entries ≡ ok result
      → IsLinked chain tip entries
  replay-IsLinked tip state [] h = tt
  replay-IsLinked tip state (x ∷ xs) h =
      let (next, e, h1) = replay_cons chain tip state x xs h in
      (apply_block-Follows tip x.block state e, replay-IsLinked (some (tip_of x.block)) next xs h1)

  -- The chain after an event, without the outcome.
  unfoldable pub run_event : ChainState → Event → Result Panic ChainState
  run_event c (adopted this_msg block) =
      apply_adopted chain c this_msg block >>= λ result. ok result.0
  run_event c (produced this_msg block) =
      apply_produced chain c this_msg block >>= λ result. ok result.0
  run_event c (orphaned this_msg block) = revert_orphan chain c this_msg block
  run_event c (channel_update orphans adoptions) =
      apply_channel_update chain c orphans adoptions >>= λ result. ok result.0
  run_event c (restored block) = expect (restore_head_block chain c block)
  run_event c (finalized this_msg block l1_slot) =
      apply_finalized chain c this_msg block l1_slot >>= λ result. ok result.0

  pub data Events (c : ChainState) : ChainState → Type 0 where
    start : Events c c
    next :
        {before after : ChainState} (event : Event)
        → Events c before
        → run_event before event ≡ ok after
        → Events c after

  pub from_value :
      {A B : Type 0} (call : Result Panic (A × B)) {value : A}
      → (call >>= λ result. ok result.0) ≡ ok value
      → (rest : B) × (call ≡ ok (value, rest))
  from_value (err failure) h = cc h
  from_value (ok (a, b)) h = (b, ground (arith, h))

  from_expect :
      {E A : Type 0} (call : Result E A) {value : A} → expect call ≡ ok value → call ≡ ok value
  from_expect (err failure) h = cc h
  from_expect (ok a) h = ground (arith, h)

  run_event-IsConsistent :
      (c : ChainState) (event : Event) {after : ChainState}
      → IsConsistent chain c
      → run_event c event ≡ ok after
      → IsConsistent chain after
  unfolding run_event
  run_event-IsConsistent c (adopted this_msg block) {after} h e =
      let (outcome, same) = from_value (apply_adopted chain c this_msg block) e in
      apply_adopted-IsConsistent chain c this_msg block {result = (after, outcome)} h same
  run_event-IsConsistent c (produced this_msg block) {after} h e =
      let (outcome, same) = from_value (apply_produced chain c this_msg block) e in
      apply_produced-IsConsistent chain c this_msg block {result = (after, outcome)} h same
  run_event-IsConsistent c (orphaned this_msg block) {after} h e =
      let (other, runs, kept) = revert_orphan-IsConsistent chain c this_msg block h in
      let same : after ≡ other = ground (arith, e, runs) in rw same kept
  run_event-IsConsistent c (channel_update orphans adoptions) {after} h e =
      let (outcomes, same) = from_value (apply_channel_update chain c orphans adoptions) e in
      apply_channel_update-IsConsistent chain c orphans adoptions {result = (after, outcomes)} h
        same
  run_event-IsConsistent c (restored block) {after} h e =
      restore_head_block-IsConsistent chain c block {next = after} h
        (from_expect (restore_head_block chain c block) e)
  run_event-IsConsistent c (finalized this_msg block l1_slot) {after} h e =
      let (outcome, same) = from_value (apply_finalized chain c this_msg block l1_slot) e in
      apply_finalized-IsConsistent chain c this_msg block l1_slot {result = (after, outcome)} h same

  -- What holds of a chain after any events: its head is its final tier with the head's blocks replayed on
  -- it, and these blocks are linked to each other and to the final tip.
  pub record IsSound (c : ChainState) : Type 0 where
    pub is_consistent : IsConsistent chain c
    pub is_linked : IsLinked chain c.final_tip c.head_blocks

  Events-IsConsistent :
      {c after : ChainState} → IsConsistent chain c → Events c after → IsConsistent chain after
  Events-IsConsistent h start = h
  Events-IsConsistent h (next {before = before} {after = after} event earlier e) =
      run_event-IsConsistent before event {after = after} (Events-IsConsistent h earlier) e

  -- Whatever blocks are adopted, produced, orphaned, restored and finalized, in any order and with any
  -- number of them invalid, the state of the head is that of the final tier with the head's blocks
  -- replayed on it, and each of these blocks has its own hash, the id after that of its parent and the
  -- hash of its parent.
  pub Events-IsSound :
      (state : V03State) (tip : Option Tip) {c : ChainState}
      → Events (from_final state tip) c
      → IsSound c
  unfolding replay last_tip
  Events-IsSound state tip {c} events =
      let kept = Events-IsConsistent {c = from_final state tip} {after = c} refl events in
      record {
        is_consistent = kept;
        is_linked = replay-IsLinked c.final_tip c.final_state c.head_blocks kept;
      }
