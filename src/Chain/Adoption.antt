-- ===== src/Chain/Adoption.antt =====
-- What an adopted block does to the chain, and that the head's operations leave the final tier alone.
use lp_0002_private_multisig.Prelude.{
  ℕ, ◌≡◌, refl, Bool-cases, Option-cases, Option, some, List, [], ◌∷◌, ◌++◌, Bytes, take, ok, ◌>>=◌,
  >>=-eq-ok, Result-cases, inl, inr, arith, ◌⊎◌,
}
use lp_0002_private_multisig.State.Types.{V03State}
use lp_0002_private_multisig.Chain.Types.{ChainHost, Block, Tip, tip_of, rejected, panicked}
use lp_0002_private_multisig.Chain.Blocks.{apply_block}
use lp_0002_private_multisig.Chain.Tiers.{
  AcceptOutcome, applied, HeadEntry, ChainState, last_tip, head_tip, position, head_position_of,
  at_or_above, not_above, replay_head_prefix,
}
use lp_0002_private_multisig.Chain.Head.{
  truncate_head, extend_head, adopt, apply_adopted, apply_produced, revert_orphan, revert_orphans,
  earliest_orphan, apply_all_adopted,
}
use lp_0002_private_multisig.Chain.Replays.{last_tip-append}

abbrev pub SameFinal : (c after : ChainState) → Type 0
SameFinal c after = (after.final_state ≡ c.final_state) × (after.final_tip ≡ c.final_tip)

-- What an adopted block does: nothing, or it is the new tip of the head; the final tier stays.
pub record Settled (c : ChainState) (block : Block) (after : ChainState) (outcome : AcceptOutcome)
    : Type 0 where
  pub moved : (after ≡ c) ⊎ ((outcome ≡ applied) × (head_tip after ≡ some (tip_of block)))
  pub final_state : after.final_state ≡ c.final_state
  pub final_tip : after.final_tip ≡ c.final_tip

module _ (chain : ChainHost) where
  unmoved :
      (c : ChainState) (block : Block) (result : ChainState × AcceptOutcome)
      → result.0 ≡ c
      → Settled c block result.0 result.1
  unmoved c block result same = record {
    moved = inl same;
    final_state = rw same refl;
    final_tip = rw same refl;
  }

  extend_head-Settled :
      (c : ChainState) (kept : List HeadEntry) (base : V03State × Option Tip) (this_msg : Bytes)
      (block : Block) {result : ChainState × AcceptOutcome}
      → extend_head chain c kept base this_msg block ≡ ok result
      → Settled c block result.0 result.1
  unfolding extend_head last_tip
  extend_head-Settled c kept base this_msg block {result} h =
      elim (Result-cases (apply_block chain base.1 block base.0)) [
        | inl (scratch, applies) ↦
            let entry : HeadEntry = record { this_msg = this_msg; block = block } in
            let extended = record c { head_state = scratch; head_blocks = kept ++ entry ∷ [] } in
            let same : result.0 ≡ extended = ground (arith, h, applies) in
            let done : result.1 ≡ applied = ground (arith, h, applies) in
            record {
              moved = inr (done, rw (same, last_tip-append c.final_tip kept (entry ∷ [])) refl);
              final_state = rw same refl;
              final_tip = rw same refl;
            }
        | inr (rejected error, fails) ↦ unmoved c block result (ground (arith, h, fails))
        | inr (panicked, fails) ↦ absurd (ground (arith, h, fails))
      ]

  -- An adopted block leaves the chain exactly as it was, or it is applied and is then the tip of the head;
  -- in both cases the final tier stays as it is.
  pub apply_adopted-Settled :
      (c : ChainState) (this_msg : Bytes) (block : Block) {result : ChainState × AcceptOutcome}
      → apply_adopted chain c this_msg block ≡ ok result
      → Settled c block result.0 result.1
  unfolding apply_adopted adopt
  apply_adopted-Settled c this_msg block {result} h =
      elim (Option-cases (head_position_of c this_msg block)) [
        | inr (idx, known) ↦ unmoved c block result (ground (arith, h, known))
        | inl unknown ↦ elim (Bool-cases (not_above c.final_tip block)) [
          | inl below ↦ unmoved c block result (ground (arith, h, unknown, below))
          | inr above ↦
              elim (Option-cases (position (at_or_above block.header.block_id) c.head_blocks)) [
                | inl extends ↦
                    extend_head-Settled c c.head_blocks (c.head_state, head_tip c) this_msg block
                      {result = result} (ground (arith, h, unknown, above, extends))
                | inr (idx, cuts) ↦
                    let steps : (replay_head_prefix chain c idx >>= λ base.
                    extend_head chain c (take idx c.head_blocks) base this_msg block)
                        ≡ ok result =
                      ground (arith, h, unknown, above, cuts) in
                    let (base, e, h1) = >>=-eq-ok (replay_head_prefix chain c idx) _ steps in
                    extend_head-Settled c (take idx c.head_blocks) base this_msg block
                      {result = result} h1
              ]
        ]
      ]

  truncate_head-SameFinal :
      (c : ChainState) (idx : ℕ) {after : ChainState}
      → truncate_head chain c idx ≡ ok after
      → SameFinal c after
  unfolding truncate_head
  truncate_head-SameFinal c idx h = (ground (arith, h), ground (arith, h))

  pub apply_produced-SameFinal :
      (c : ChainState) (this_msg : Bytes) (block : Block) {result : ChainState × AcceptOutcome}
      → apply_produced chain c this_msg block ≡ ok result
      → SameFinal c result.0
  unfolding apply_produced
  apply_produced-SameFinal c this_msg block {result} h =
      elim (Bool-cases (not_above (head_tip c) block)) [
        | inl stale ↦ (ground (arith, h, stale), ground (arith, h, stale))
        | inr fresh ↦
            let settled =
              apply_adopted-Settled c this_msg block {result = result} (ground (arith, h, fresh)) in
            (settled.final_state, settled.final_tip)
      ]

  pub apply_all_adopted-SameFinal :
      (c : ChainState) (adoptions : List (Bytes × Block)) {result : ChainState × List AcceptOutcome}
      → apply_all_adopted chain c adoptions ≡ ok result
      → SameFinal c result.0
  unfolding apply_all_adopted
  apply_all_adopted-SameFinal c [] h = (ground (arith, h), ground (arith, h))
  apply_all_adopted-SameFinal c ((this_msg, block) ∷ rest) {result} h =
      let (step, e1, h1) = >>=-eq-ok (apply_adopted chain c this_msg block) _ h in
      let (others, e2, h2) = >>=-eq-ok (apply_all_adopted chain step.0 rest) _ h1 in
      let settled = apply_adopted-Settled c this_msg block {result = step} e1 in
      let (same_state, same_tip) = apply_all_adopted-SameFinal step.0 rest {result = others} e2 in
      let same : result.0 ≡ others.0 = ground (arith, h2) in
      (rw (same, same_state, settled.final_state) refl, rw (same, same_tip, settled.final_tip) refl)

  pub revert_orphans-SameFinal :
      (c : ChainState) (orphans : List (Bytes × Block)) {after : ChainState}
      → revert_orphans chain c orphans ≡ ok after
      → SameFinal c after
  unfolding revert_orphans
  revert_orphans-SameFinal c orphans {after} h = elim (Option-cases (earliest_orphan c orphans)) [
    | inl unknown ↦ (ground (arith, h, unknown), ground (arith, h, unknown))
    | inr (idx, known) ↦ truncate_head-SameFinal c idx {after = after} (ground (arith, h, known))
  ]

  pub revert_orphan-SameFinal :
      (c : ChainState) (this_msg : Bytes) (block : Block) {after : ChainState}
      → revert_orphan chain c this_msg block ≡ ok after
      → SameFinal c after
  unfolding revert_orphan
  revert_orphan-SameFinal c this_msg block {after} h =
      elim (Option-cases (head_position_of c this_msg block)) [
        | inl unknown ↦ (ground (arith, h, unknown), ground (arith, h, unknown))
        | inr (idx, known) ↦
            truncate_head-SameFinal c idx {after = after} (ground (arith, h, known))
      ]
