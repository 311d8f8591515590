-- ===== src/Chain/Consistency.antt =====
-- The head is the final tier with the head's blocks replayed on it: what each operation keeps of that.
use lp_0002_private_multisig.Prelude.{
  ℕ, ◌≡◌, refl, sym, Option, List, [], ◌∷◌, ◌++◌, Bytes, length, take, drop, take_all, Bool-cases,
  Option-cases, ok, >>=-eq-ok, Result-cases, inl, inr, arith,
}
use lp_0002_private_multisig.State.Types.{V03State}
use lp_0002_private_multisig.Chain.Types.{ChainHost, Block, Tip, rejected, panicked}
use lp_0002_private_multisig.Chain.Blocks.{apply_block}
use lp_0002_private_multisig.Chain.Tiers.{
  AcceptOutcome, HeadEntry, ChainState, last_tip, head_tip, position, head_position_of, at_or_above,
  not_above, replay, replay_head_prefix,
}
use lp_0002_private_multisig.Chain.Head.{
  truncate_head, extend_head, adopt, apply_adopted, apply_produced, revert_orphan, revert_orphans,
  earliest_orphan, apply_all_adopted, apply_channel_update, restore_head_block,
}
use lp_0002_private_multisig.Chain.Replays.{
  take-append-drop, last_tip-append, replay_step, replay-last_tip, replay-append, replay_split,
}

module _ (chain : ChainHost) where
  abbrev pub IsConsistent : ChainState → Type 0
  IsConsistent c =
      replay chain c.final_tip c.final_state c.head_blocks ≡ ok (c.head_state, head_tip c)

  -- The head up to a position, and the rest of it.
  pub record Prefix (c : ChainState) (count : ℕ) : Type 0 where
    pub middle : V03State × Option Tip
    pub first : replay chain c.final_tip c.final_state (take count c.head_blocks) ≡ ok middle
    pub second :
        replay chain middle.1 middle.0 (drop count c.head_blocks) ≡ ok (c.head_state, head_tip c)

  pub IsConsistent-Prefix : (c : ChainState) (count : ℕ) → IsConsistent c → Prefix c count
  IsConsistent-Prefix c count h =
      let (middle, first, second) =
        replay_split chain c.final_tip c.final_state (take count c.head_blocks)
          (drop count c.head_blocks) (rw (take-append-drop count c.head_blocks) h) in
      record { middle = middle; first = first; second = second }

  replay_snoc :
      (tip : Option Tip) (state next : V03State) (xs : List HeadEntry) (entry : HeadEntry)
      (base : V03State × Option Tip)
      → replay chain tip state xs ≡ ok base
      → apply_block chain base.1 entry.block base.0 ≡ ok next
      → replay chain tip state (xs ++ entry ∷ []) ≡ ok (next, last_tip tip (xs ++ entry ∷ []))
  unfolding replay last_tip
  replay_snoc tip state next xs entry base h e =
      rw
        (
          replay-append chain tip state xs (entry ∷ []) h,
          replay_step chain base.1 base.0 next entry [] e,
          last_tip-append tip xs (entry ∷ []),
        )
        refl

  -- Cutting the head never panics.
  pub truncate_head-IsConsistent :
      (c : ChainState) (idx : ℕ)
      → IsConsistent c
      → (next : ChainState) × (truncate_head chain c idx ≡ ok next) × IsConsistent next
  unfolding truncate_head replay_head_prefix
  truncate_head-IsConsistent c idx h =
      let part = IsConsistent-Prefix c idx h in
      let kept = take idx c.head_blocks in
      let all : take (length kept) kept ≡ kept = take_all (length kept) kept (omega arith) in
      let tip = replay-last_tip chain c.final_tip c.final_state kept part.first in
      (
        record c { head_blocks = kept; head_state = part.middle.0 },
        rw (all, part.first) refl,
        rw (sym tip) part.first,
      )

  extend_head-IsConsistent :
      (c : ChainState) (kept : List HeadEntry) (base : V03State × Option Tip) (this_msg : Bytes)
      (block : Block) {result : ChainState × AcceptOutcome}
      → IsConsistent c
      → replay chain c.final_tip c.final_state kept ≡ ok base
      → extend_head chain c kept base this_msg block ≡ ok result
      → IsConsistent result.0
  unfolding extend_head
  extend_head-IsConsistent c kept base this_msg block {result} consistent h e =
      elim (Result-cases (apply_block chain base.1 block base.0)) [
        | inl (next, applies) ↦
            let entry : HeadEntry = record { this_msg = this_msg; block = block } in
            let extended = record c { head_state = next; head_blocks = kept ++ entry ∷ [] } in
            let same : result.0 ≡ extended = ground (arith, e, applies) in
            rw same (replay_snoc c.final_tip c.final_state next kept entry base h applies)
        | inr (rejected error, fails) ↦
            let same : result.0 ≡ c = ground (arith, e, fails) in rw same consistent
        | inr (panicked, fails) ↦ absurd (ground (arith, e, fails))
      ]

  pub adopt-IsConsistent :
      (c : ChainState) (this_msg : Bytes) (block : Block) {result : ChainState × AcceptOutcome}
      → IsConsistent c
      → adopt chain c this_msg block ≡ ok result
      → IsConsistent result.0
  unfolding adopt replay_head_prefix
  adopt-IsConsistent c this_msg block {result} consistent h =
      elim (Option-cases (position (at_or_above block.header.block_id) c.head_blocks)) [
        | inl extends ↦
            extend_head-IsConsistent c c.head_blocks (c.head_state, head_tip c) this_msg block
              {result = result} consistent consistent (ground (arith, h, extends))
        | inr (idx, cuts) ↦
            let part = IsConsistent-Prefix c idx consistent in
            extend_head-IsConsistent c (take idx c.head_blocks) part.middle this_msg block
              {result = result} consistent part.first (ground (arith, h, cuts, part.first))
      ]

  pub apply_adopted-IsConsistent :
      (c : ChainState) (this_msg : Bytes) (block : Block) {result : ChainState × AcceptOutcome}
      → IsConsistent c
      → apply_adopted chain c this_msg block ≡ ok result
      → IsConsistent result.0
  unfolding apply_adopted
  apply_adopted-IsConsistent c this_msg block {result} consistent h =
      elim (Option-cases (head_position_of c this_msg block)) [
        | inr (idx, known) ↦
            let same : result.0 ≡ c = ground (arith, h, known) in rw same consistent
        | inl unknown ↦ elim (Bool-cases (not_above c.final_tip block)) [
          | inl below ↦
              let same : result.0 ≡ c = ground (arith, h, unknown, below) in rw same consistent
          | inr above ↦
              adopt-IsConsistent c this_msg block {result = result} consistent
                (ground (arith, h, unknown, above))
        ]
      ]

  pub apply_produced-IsConsistent :
      (c : ChainState) (this_msg : Bytes) (block : Block) {result : ChainState × AcceptOutcome}
      → IsConsistent c
      → apply_produced chain c this_msg block ≡ ok result
      → IsConsistent result.0
  unfolding apply_produced
  apply_produced-IsConsistent c this_msg block {result} consistent h =
      elim (Bool-cases (not_above (head_tip c) block)) [
        | inl stale ↦ let same : result.0 ≡ c = ground (arith, h, stale) in rw same consistent
        | inr fresh ↦
            apply_adopted-IsConsistent c this_msg block {result = result} consistent
              (ground (arith, h, fresh))
      ]

  -- Reverting an orphan never panics.
  pub revert_orphan-IsConsistent :
      (c : ChainState) (this_msg : Bytes) (block : Block)
      → IsConsistent c
      → (next : ChainState) × (revert_orphan chain c this_msg block ≡ ok next) × IsConsistent next
  unfolding revert_orphan
  revert_orphan-IsConsistent c this_msg block consistent =
      elim (Option-cases (head_position_of c this_msg block)) [
        | inl unknown ↦ (c, ground (arith, unknown), consistent)
        | inr (idx, known) ↦
            let (next, cut, kept) = truncate_head-IsConsistent c idx consistent in
            (next, ground (arith, known, cut), kept)
      ]

  pub revert_orphans-IsConsistent :
      (c : ChainState) (orphaned : List (Bytes × Block))
      → IsConsistent c
      → (next : ChainState) × (revert_orphans chain c orphaned ≡ ok next) × IsConsistent next
  unfolding revert_orphans
  revert_orphans-IsConsistent c orphaned consistent =
      elim (Option-cases (earliest_orphan c orphaned)) [
        | inl unknown ↦ (c, ground (arith, unknown), consistent)
        | inr (idx, known) ↦
            let (next, cut, kept) = truncate_head-IsConsistent c idx consistent in
            (next, ground (arith, known, cut), kept)
      ]

  pub apply_all_adopted-IsConsistent :
      (c : ChainState) (adopted : List (Bytes × Block)) {result : ChainState × List AcceptOutcome}
      → IsConsistent c
      → apply_all_adopted chain c adopted ≡ ok result
      → IsConsistent result.0
  unfolding apply_all_adopted
  apply_all_adopted-IsConsistent c [] {result} consistent h =
      let same : result.0 ≡ c = ground (arith, h) in rw same consistent
  apply_all_adopted-IsConsistent c ((this_msg, block) ∷ rest) {result} consistent h =
      let (step, e1, h1) = >>=-eq-ok (apply_adopted chain c this_msg block) _ h in
      let (others, e2, h2) = >>=-eq-ok (apply_all_adopted chain step.0 rest) _ h1 in
      let kept = apply_adopted-IsConsistent c this_msg block {result = step} consistent e1 in
      let same : result.0 ≡ others.0 = ground (arith, h2) in
      rw same (apply_all_adopted-IsConsistent step.0 rest {result = others} kept e2)

  pub restore_head_block-IsConsistent :
      (c : ChainState) (block : Block) {next : ChainState}
      → IsConsistent c
      → restore_head_block chain c block ≡ ok next
      → IsConsistent next
  unfolding restore_head_block
  restore_head_block-IsConsistent c block {next} consistent h =
      let (state, e, h1) = >>=-eq-ok (apply_block chain (head_tip c) block c.head_state) _ h in
      let entry : HeadEntry = record { this_msg = block.header.hash; block = block } in
      let restored = record c { head_state = state; head_blocks = c.head_blocks ++ entry ∷ [] } in
      let same : next ≡ restored = ground (arith, h1) in
      rw same (
        replay_snoc c.final_tip c.final_state state c.head_blocks entry (c.head_state, head_tip c)
          consistent e)

  pub apply_channel_update-IsConsistent :
      (c : ChainState) (orphaned adopted : List (Bytes × Block))
      {result : ChainState × List AcceptOutcome}
      → IsConsistent c
      → apply_channel_update chain c orphaned adopted ≡ ok result
      → IsConsistent result.0
  unfolding apply_channel_update
  apply_channel_update-IsConsistent c orphaned adopted {result} consistent h =
      let (next, reverts, kept) = revert_orphans-IsConsistent c orphaned consistent in
      apply_all_adopted-IsConsistent next adopted {result = result} kept
        (ground (arith, h, reverts))
