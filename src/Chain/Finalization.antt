-- ===== src/Chain/Finalization.antt =====
-- Finalizing keeps the head consistent.
use lp_0002_private_multisig.Prelude.{
  ℕ, suc, ◌≡◌, refl, sym, none, some, Bytes, drop, Bool-cases, Option-cases, ok, Result-cases, inl,
  inr, arith,
}
use lp_0002_private_multisig.Chain.Types.{ChainHost, Block, tip_of, rejected, panicked}
use lp_0002_private_multisig.Chain.Blocks.{apply_block}
use lp_0002_private_multisig.Chain.Tiers.{
  AcceptOutcome, applied, ChainState, last_tip, head_tip, position, head_position_of, is_parent_of,
  is_redelivery, from_final, replay,
}
use lp_0002_private_multisig.Chain.Finality.{
  record_final_stall, finalize_through, apply_finalized_direct, finalize_parent, apply_finalized,
}
use lp_0002_private_multisig.Chain.Replays.{replay-last_tip}
use lp_0002_private_multisig.Chain.Consistency.{IsConsistent, IsConsistent-Prefix}

module _ (chain : ChainHost) where
  -- What finalizing keeps.
  pub record Finalized (c next : ChainState) : Type 0 where
    pub is_consistent : IsConsistent chain next
    pub same_state : next.head_state ≡ c.head_state
    pub same_tip : head_tip next ≡ head_tip c

  -- Finalizing a part of the head never panics, and leaves the state and the tip of the head.
  pub finalize_through-Finalized :
      (c : ChainState) (idx : ℕ)
      → IsConsistent chain c
      → (next : ChainState) × (finalize_through chain c idx ≡ ok next) × Finalized c next
  unfolding finalize_through
  finalize_through-Finalized c idx consistent =
      let part = IsConsistent-Prefix chain c (suc idx) consistent in
      let rest = drop (suc idx) c.head_blocks in
      let tip = replay-last_tip chain part.middle.1 part.middle.0 rest part.second in
      (
        record c {
          final_state = part.middle.0;
          final_tip = part.middle.1;
          final_stall = none;
          head_blocks = rest;
        },
        rw part.first refl,
        record { is_consistent = rw (sym tip) part.second; same_state = refl; same_tip = sym tip },
      )

  finalize_parent-IsConsistent :
      (c : ChainState) (block : Block)
      → IsConsistent chain c
      → (next : ChainState) × (finalize_parent chain c block ≡ ok next) × IsConsistent chain next
  unfolding finalize_parent
  finalize_parent-IsConsistent c block consistent =
      elim (Option-cases (position (is_parent_of block) c.head_blocks)) [
        | inl unknown ↦ (c, ground (arith, unknown), consistent)
        | inr (idx, known) ↦
            let (next, through, kept) = finalize_through-Finalized c idx consistent in
            (next, ground (arith, known, through), kept.is_consistent)
      ]

  apply_finalized_direct-IsConsistent :
      (c : ChainState) (block : Block) (l1_slot : ℕ) {result : ChainState × AcceptOutcome}
      → IsConsistent chain c
      → apply_finalized_direct chain c block l1_slot ≡ ok result
      → IsConsistent chain result.0
  unfolding apply_finalized_direct record_final_stall replay last_tip
  apply_finalized_direct-IsConsistent c block l1_slot {result} consistent h =
      elim (Bool-cases (is_redelivery c.final_tip block)) [
        | inl again ↦ let same : result.0 ≡ c = ground (arith, h, again) in rw same consistent
        | inr fresh ↦ elim (Result-cases (apply_block chain c.final_tip block c.final_state)) [
          | inl (next, applies) ↦
              let same : result.0 ≡ from_final next (some (tip_of block)) =
                ground (arith, h, fresh, applies) in
              rw same refl
          | inr (rejected error, fails) ↦
              let same : result.0 ≡ record_final_stall c block l1_slot error =
                ground (arith, h, fresh, fails) in
              rw same consistent
          | inr (panicked, fails) ↦ absurd (ground (arith, h, fresh, fails))
        ]
      ]

  pub apply_finalized-IsConsistent :
      (c : ChainState) (this_msg : Bytes) (block : Block) (l1_slot : ℕ)
      {result : ChainState × AcceptOutcome}
      → IsConsistent chain c
      → apply_finalized chain c this_msg block l1_slot ≡ ok result
      → IsConsistent chain result.0
  unfolding apply_finalized
  apply_finalized-IsConsistent c this_msg block l1_slot {result} consistent h =
      elim (Option-cases (head_position_of c this_msg block)) [
        | inr (idx, known) ↦
            let (next, through, kept) = finalize_through-Finalized c idx consistent in
            let same : result.0 ≡ next = ground (arith, h, known, through) in
            rw same kept.is_consistent
        | inl unknown ↦
            let (next, through, kept) = finalize_parent-IsConsistent c block consistent in
            apply_finalized_direct-IsConsistent next block l1_slot {result = result} kept
              (ground (arith, h, unknown, through))
      ]

  -- A finalized block that the head has never makes a sound chain panic: it is applied, and moves the
  -- blocks up to it into the final tier, while the state and the tip of the head stay as they are.
  pub apply_finalized-Finalized :
      (c : ChainState) (this_msg : Bytes) (block : Block) (l1_slot idx : ℕ)
      → IsConsistent chain c
      → head_position_of c this_msg block ≡ some idx
      → (next : ChainState) × (apply_finalized chain c this_msg block l1_slot ≡ ok (next, applied))
        × Finalized c next
        × (next.head_blocks ≡ drop (suc idx) c.head_blocks)
  unfolding apply_finalized finalize_through
  apply_finalized-Finalized c this_msg block l1_slot idx consistent known =
      let (next, through, kept) = finalize_through-Finalized c idx consistent in
      (next, ground (arith, known, through), kept, ground (arith, through))
