-- ===== src/Chain/Irreversible.antt =====
-- The final tier only grows.
use lp_0002_private_multisig.Prelude.{
  ℕ, suc, ◌≡◌, refl, ◌∙◌, Bool-cases, Option-cases, some, List, [], ◌∷◌, ◌++◌, Bytes, take, ok,
  ◌>>=◌, >>=-eq-ok, Result-cases, inl, inr, arith,
}
use lp_0002_private_multisig.Chain.Types.{ChainHost, Block, tip_of, rejected, panicked}
use lp_0002_private_multisig.Chain.Blocks.{apply_block}
use lp_0002_private_multisig.Chain.Tiers.{
  AcceptOutcome, applied, HeadEntry, ChainState, from_final, position, head_position_of,
  is_redelivery, is_parent_of, replay,
}
use lp_0002_private_multisig.Chain.Head.{
  apply_adopted, apply_produced, revert_orphans, apply_channel_update, restore_head_block,
}
use lp_0002_private_multisig.Chain.Finality.{
  record_final_stall, finalize_through, apply_finalized_direct, finalize_parent, apply_finalized,
}
use lp_0002_private_multisig.Chain.Replays.{replay-append, replay_step}
use lp_0002_private_multisig.Chain.Events.{
  Event, adopted, produced, orphaned, channel_update, restored, finalized, run_event, Events, start,
  next, from_value,
}
use lp_0002_private_multisig.Chain.Adoption.{
  SameFinal, apply_adopted-Settled, apply_produced-SameFinal, apply_all_adopted-SameFinal,
  revert_orphans-SameFinal, revert_orphan-SameFinal,
}

module _ (chain : ChainHost) where
  -- The final tier after is the one before with some valid blocks applied to it.
  pub record Extends (c after : ChainState) : Type 0 where
    pub blocks : List HeadEntry
    pub reached :
        replay chain c.final_tip c.final_state blocks ≡ ok (after.final_state, after.final_tip)

  unchanged : (c after : ChainState) → SameFinal c after → Extends c after
  unfolding replay
  unchanged c after same = record { blocks = []; reached = rw (same.0, same.1) refl }

  Extends-trans : (c d e : ChainState) → Extends c d → Extends d e → Extends c e
  Extends-trans c d e first second = record {
    blocks = first.blocks ++ second.blocks;
    reached =
        rw (replay-append chain c.final_tip c.final_state first.blocks second.blocks first.reached)
          second.reached;
  }

  finalize_through-Extends :
      (c : ChainState) (idx : ℕ) {after : ChainState}
      → finalize_through chain c idx ≡ ok after
      → Extends c after
  unfolding finalize_through
  finalize_through-Extends c idx {after} h =
      let part = take (suc idx) c.head_blocks in
      elim (Result-cases (replay chain c.final_tip c.final_state part)) [
        | inl (reached, e) ↦
            let same_state : after.final_state ≡ reached.0 = ground (arith, h, e) in
            let same_tip : after.final_tip ≡ reached.1 = ground (arith, h, e) in
            record { blocks = part; reached = rw (same_state, same_tip) e }
        | inr (failure, e) ↦ absurd (ground (arith, h, e))
      ]

  finalize_parent-Extends :
      (c : ChainState) (block : Block) {after : ChainState}
      → finalize_parent chain c block ≡ ok after
      → Extends c after
  unfolding finalize_parent
  finalize_parent-Extends c block {after} h =
      elim (Option-cases (position (is_parent_of block) c.head_blocks)) [
        | inl unknown ↦ unchanged c after (ground (arith, h, unknown), ground (arith, h, unknown))
        | inr (idx, known) ↦
            finalize_through-Extends c idx {after = after} (ground (arith, h, known))
      ]

  apply_finalized_direct-Extends :
      (c : ChainState) (block : Block) (l1_slot : ℕ) {result : ChainState × AcceptOutcome}
      → apply_finalized_direct chain c block l1_slot ≡ ok result
      → Extends c result.0
  unfolding apply_finalized_direct record_final_stall replay
  apply_finalized_direct-Extends c block l1_slot {result} h =
      elim (Bool-cases (is_redelivery c.final_tip block)) [
        | inl again ↦ unchanged c result.0 (ground (arith, h, again), ground (arith, h, again))
        | inr fresh ↦ elim (Result-cases (apply_block chain c.final_tip block c.final_state)) [
          | inl (scratch, applies) ↦
              let same : result.0 ≡ from_final scratch (some (tip_of block)) =
                ground (arith, h, fresh, applies) in
              let entry : HeadEntry = record { this_msg = []; block = block } in
              let one = replay_step chain c.final_tip c.final_state scratch entry [] applies in
              record { blocks = entry ∷ []; reached = rw (one, same) refl }
          | inr (rejected error, fails) ↦
              let same : result.0 ≡ record_final_stall c block l1_slot error =
                ground (arith, h, fresh, fails) in
              unchanged c result.0 (rw same refl, rw same refl)
          | inr (panicked, fails) ↦ absurd (ground (arith, h, fresh, fails))
        ]
      ]

  apply_finalized-Extends :
      (c : ChainState) (this_msg : Bytes) (block : Block) (l1_slot : ℕ)
      {result : ChainState × AcceptOutcome}
      → apply_finalized chain c this_msg block l1_slot ≡ ok result
      → Extends c result.0
  unfolding apply_finalized
  apply_finalized-Extends c this_msg block l1_slot {result} h =
      elim (Option-cases (head_position_of c this_msg block)) [
        | inr (idx, known) ↦
            let steps : (finalize_through chain c idx >>= λ after. ok (after, applied))
                ≡ ok result =
              ground (arith, h, known) in
            let (after, e, h1) = >>=-eq-ok (finalize_through chain c idx) _ steps in
            let same : result.0 ≡ after = ground (arith, h1) in
            rw same (finalize_through-Extends c idx {after = after} e)
        | inl unknown ↦
            let steps : (finalize_parent chain c block >>= λ after.
            apply_finalized_direct chain after block l1_slot)
                ≡ ok result =
              ground (arith, h, unknown) in
            let (after, e, h1) = >>=-eq-ok (finalize_parent chain c block) _ steps in
            Extends-trans c after result.0 (finalize_parent-Extends c block {after = after} e)
              (apply_finalized_direct-Extends after block l1_slot {result = result} h1)
      ]

  run_event-Extends :
      (c : ChainState) (event : Event) {after : ChainState}
      → run_event chain c event ≡ ok after
      → Extends c after
  unfolding run_event restore_head_block apply_channel_update
  run_event-Extends c (adopted this_msg block) {after} e =
      let (outcome, same) = from_value chain (apply_adopted chain c this_msg block) e in
      let settled = apply_adopted-Settled chain c this_msg block {result = (after, outcome)} same in
      unchanged c after (settled.final_state, settled.final_tip)
  run_event-Extends c (produced this_msg block) {after} e =
      let (outcome, same) = from_value chain (apply_produced chain c this_msg block) e in
      unchanged c after
        (apply_produced-SameFinal chain c this_msg block {result = (after, outcome)} same)
  run_event-Extends c (orphaned this_msg block) {after} e =
      unchanged c after (revert_orphan-SameFinal chain c this_msg block {after = after} e)
  run_event-Extends c (channel_update orphans adoptions) {after} e =
      let (outcomes, same) = from_value chain (apply_channel_update chain c orphans adoptions) e in
      let (reverted, e1, h1) = >>=-eq-ok (revert_orphans chain c orphans) _ same in
      let (state1, tip1) = revert_orphans-SameFinal chain c orphans {after = reverted} e1 in
      let (state2, tip2) =
        apply_all_adopted-SameFinal chain reverted adoptions {result = (after, outcomes)} h1 in
      unchanged c after (state2 ∙ state1, tip2 ∙ tip1)
  run_event-Extends c (restored block) {after} e =
      unchanged c after (ground (arith, e), ground (arith, e))
  run_event-Extends c (finalized this_msg block l1_slot) {after} e =
      let (outcome, same) = from_value chain (apply_finalized chain c this_msg block l1_slot) e in
      apply_finalized-Extends c this_msg block l1_slot {result = (after, outcome)} same

  -- The final tier is irreversible: after any events its state and its tip are those from before with some
  -- valid blocks, one after the other, applied to them; no reorganization of the head, orphan or invalid
  -- block takes a final block back.
  pub Events-Extends :
      (c : ChainState) {after : ChainState} → Events chain c after → Extends c after
  Events-Extends c start = unchanged c c (refl, refl)
  Events-Extends c (next {before = before} {after = after} event earlier e) =
      Extends-trans c before after (Events-Extends c earlier)
        (run_event-Extends before event {after = after} e)
