-- ===== src/Chain/Tiers.antt =====
-- `ChainState` of lez/chain_state/src/chain.rs: a head that can be reorganized over a final tier. `AcceptOutcome` is of apply.rs there.
use lp_0002_private_multisig.Prelude.{
  ℕ, suc, Bool, false, ◌&&◌, ◌||◌, Option, none, some, List, [], ◌∷◌, Bytes, bytes_eq, take, ltb,
  leb, ◌==◌, if◌then◌else◌, Result, ok, ◌>>=◌,
}
use lp_0002_private_multisig.State.Types.{V03State}
use lp_0002_private_multisig.Chain.Types.{
  Outcome, Panic, expect, Block, ChainHost, Tip, tip_of, BlockIngestError, StallReason,
}
use lp_0002_private_multisig.Chain.Blocks.{apply_block}

pub data AcceptOutcome : Type 0 where
  applied already_applied : AcceptOutcome
  parked retryable_failure : BlockIngestError → AcceptOutcome

pub record HeadEntry : Type 0 where
  pub this_msg : Bytes
  pub block : Block

pub record ChainState : Type 0 where
  pub final_state : V03State
  pub final_tip : Option Tip
  pub final_stall : Option StallReason
  pub head_state : V03State
  pub head_blocks : List HeadEntry

-- `ChainState::from_final`; `new` is the one without a tip.
abbrev pub from_final : V03State → Option Tip → ChainState
from_final final_state final_tip = record {
  final_state = final_state;
  final_tip = final_tip;
  final_stall = none;
  head_state = final_state;
  head_blocks = [];
}

-- The tip after some entries, and `head_tip`.
unfoldable pub last_tip : Option Tip → List HeadEntry → Option Tip
last_tip tip [] = tip
last_tip tip (entry ∷ entries) = last_tip (some (tip_of entry.block)) entries

abbrev pub head_tip : ChainState → Option Tip
head_tip c = last_tip c.final_tip c.head_blocks

-- `iter().position(..)`
unfoldable pub position : (HeadEntry → Bool) → List HeadEntry → Option ℕ
position test [] = none
position test (entry ∷ entries) =
    let rest = position test entries in
    if test entry then some 0 else elim rest [ none ↦ none | some i ↦ some (suc i) ]

abbrev pub is_entry : (this_msg : Bytes) → Block → HeadEntry → Bool
is_entry this_msg block entry =
    entry.block.header.block_id == block.header.block_id
    && (bytes_eq entry.this_msg this_msg || bytes_eq entry.block.header.hash block.header.hash)

unfoldable pub head_position_of : ChainState → (this_msg : Bytes) → Block → Option ℕ
unfolding position
head_position_of c this_msg block = position (is_entry this_msg block) c.head_blocks

abbrev pub at_or_above : (block_id : ℕ) → HeadEntry → Bool
at_or_above block_id entry = leb block_id entry.block.header.block_id

abbrev pub is_parent_of : Block → HeadEntry → Bool
is_parent_of block entry = bytes_eq entry.block.header.hash block.header.prev_block_hash

-- Whether a block is at or below a tip, for an adopted block and for the head.
abbrev pub not_above : Option Tip → Block → Bool
not_above none block = false
not_above (some tip) block = leb block.header.block_id tip.block_id

-- A finalized block that the final tier already has.
abbrev pub is_redelivery : Option Tip → Block → Bool
is_redelivery none block = false
is_redelivery (some tip) block =
    ltb block.header.block_id tip.block_id
    || (block.header.block_id == tip.block_id && bytes_eq block.header.hash tip.hash)

module _ (chain : ChainHost) where
  -- The loop of `replay_head_prefix`, which is also that of `finalize_through`.
  unfoldable pub replay :
      Option Tip → V03State → List HeadEntry → Outcome BlockIngestError (V03State × Option Tip)
  replay tip state [] = ok (state, tip)
  replay tip state (entry ∷ entries) = do
    next ← apply_block chain tip entry.block state
    replay (some (tip_of entry.block)) next entries

  unfoldable pub replay_head_prefix :
      ChainState → (count : ℕ) → Result Panic (V03State × Option Tip)
  unfolding replay
  replay_head_prefix c count = expect (replay c.final_tip c.final_state (take count c.head_blocks))
