-- ===== src/Msig/Treasury.antt =====
-- The release of the treasury: `execute`, and what the transfer program does with its chained call.
use lp_0002_private_multisig.Prelude.{
  ℕ, ◌+◌, ◌<◌, ◌≡◌, refl, sym, ap, ◌∙◌, Bytes, List, [], ◌∷◌, ◌++◌, length, length-append, leb,
  arith, true, ok, err, if◌then◌else◌, u32_to_le_bytes, length-u32_to_le_bytes, u32_mod,
}
use lp_0002_private_multisig.Core.Account.{AccountWithMetadata, u128_mod}
use lp_0002_private_multisig.Core.Program.{
  InstructionData, ChainedCall, AccountPostState, new_post_state,
}
use lp_0002_private_multisig.AuthenticatedTransfer.{
  Instruction, run_instruction, transfer_balance, recipient_post_state,
}
use lp_0002_private_multisig.Msig.Scheme.{proposal_header_len}
use lp_0002_private_multisig.Msig.Guest.{
  below_threshold, execute_calls, set_authorized, state_approval_count,
}
use lp_0002_private_multisig.Msig.Merkle.Soundness.{IsDigest}
use lp_0002_private_multisig.Msig.Layout.{u32_at}
use lp_0002_private_multisig.Msig.Proposal.Abstract.{Proposal, IsStored}
use lp_0002_private_multisig.Msig.Proposal.Refinement.{stored, count-encode, header-encode}

module _ (to_vec : Instruction → InstructionData) where
  -- The chained call that `execute` makes: a transfer of the whole balance, to the owner of the
  -- treasury, with the treasury authorized by the seed.
  abbrev pub release_call : AccountWithMetadata → AccountWithMetadata → Bytes → ChainedCall
  release_call treasury recipient seed = record {
    program_id = treasury.account.program_owner;
    pre_states = set_authorized treasury ∷ recipient ∷ [];
    instruction_data = to_vec (Instruction.transfer treasury.account.balance);
    pda_seeds = seed ∷ [];
  }

  abbrev pub unchanged :
      AccountWithMetadata → AccountWithMetadata → AccountWithMetadata → List AccountPostState
  unchanged proposal treasury recipient =
      new_post_state proposal.account
      ∷ new_post_state treasury.account
      ∷ new_post_state recipient.account
      ∷ []

  -- On a stored proposal, `execute` releases the treasury exactly if at least `threshold` votes are
  -- recorded; it changes no account itself.
  pub execute_calls-stored :
      {p : Proposal} (s : IsStored p) (account treasury recipient : AccountWithMetadata)
      (threshold : ℕ) (seed : Bytes)
      → execute_calls to_vec (stored account p) treasury recipient threshold seed ≡ (
          if leb threshold (length p.nullifiers)
          then ok (
            unchanged (stored account p) treasury recipient,
            release_call treasury recipient seed ∷ [],
          )
          else err below_threshold)
  unfolding execute_calls
  execute_calls-stored {p} s account treasury recipient threshold seed =
      rw (count-encode s, header-encode s) (ground arith)

append_nil : (b : Bytes) → b ++ [] ≡ b
append_nil [] = refl
append_nil (x ∷ b) = ap (λ (t : Bytes). x ∷ t) (append_nil b)

-- The count of a header that nothing follows.
forged_count :
    (header : Bytes) (count : ℕ)
    → length header ≡ 64
    → count < u32_mod
    → state_approval_count (header ++ u32_to_le_bytes count) ≡ count
forged_count header count len small =
    let nothing = append_nil (header ++ u32_to_le_bytes count) in
    ap state_approval_count (sym nothing) ∙ u32_at 64 header [] count len small

-- The transfer program on the accounts of the released call empties the treasury into the recipient,
-- and panics on nothing, if the recipient's new balance fits into a u128.
pub release_drains :
    (treasury recipient : AccountWithMetadata)
    → recipient.account.balance + treasury.account.balance < u128_mod
    → run_instruction
        (Instruction.transfer treasury.account.balance)
        (set_authorized treasury ∷ recipient ∷ [])
      ≡ ok (
          new_post_state (record treasury.account { balance = 0 })
          ∷ recipient_post_state (record recipient.account {
            balance = recipient.account.balance + treasury.account.balance;
          })
          ∷ [])
unfolding run_instruction transfer_balance
release_drains treasury recipient h = ground arith

module _ (to_vec : Instruction → InstructionData) where
  -- What stands in the place of the proposal need not be one that the program has written: for every
  -- threshold below 2^32, on any account with the 68 bytes of any root, any id and that threshold as the
  -- count, without a single vote and whoever owns it, `execute` makes one chained call, which is for the
  -- owner of the treasury and carries the transfer of its balance, and the transfer program, run with
  -- this instruction on the accounts of the call, empties the treasury into the recipient, if the
  -- recipient's new balance is a u128 value.
  pub forged_proposal-drains :
      (proposal treasury recipient : AccountWithMetadata) (threshold : ℕ)
      (seed member_root proposal_id : Bytes)
      → threshold < u32_mod
      → IsDigest member_root
      → IsDigest proposal_id
      → proposal.account.data_bytes ≡ member_root ++ proposal_id ++ u32_to_le_bytes threshold
      → recipient.account.balance + treasury.account.balance < u128_mod
      → (call : ChainedCall) × (execute_calls to_vec proposal treasury recipient threshold seed
          ≡ ok (unchanged to_vec proposal treasury recipient, call ∷ []))
        × (call.program_id ≡ treasury.account.program_owner)
        × (call.instruction_data ≡ to_vec (Instruction.transfer treasury.account.balance))
        × (run_instruction (Instruction.transfer treasury.account.balance) call.pre_states
            ≡ ok (
                new_post_state (record treasury.account { balance = 0 })
                ∷ recipient_post_state (record recipient.account {
                  balance = recipient.account.balance + treasury.account.balance;
                })
                ∷ []))
  unfolding execute_calls
  forged_proposal-drains proposal treasury recipient threshold seed member_root proposal_id small
        root_len id_len is fits =
      let header = member_root ++ proposal_id in
      let head_len : length header ≡ 64 =
        omega (arith, length-append member_root proposal_id, root_len, id_len) in
      let whole_len : length (header ++ u32_to_le_bytes threshold) ≡ 68 = omega (
        arith,
        length-append header (u32_to_le_bytes threshold),
        head_len,
        length-u32_to_le_bytes threshold,
      ) in
      let long : leb proposal_header_len (length proposal.account.data_bytes) ≡ true =
        rw is (ground (arith, whole_len)) in
      let count : state_approval_count proposal.account.data_bytes ≡ threshold =
        rw is (forged_count header threshold head_len small) in
      let enough : leb threshold threshold ≡ true = ground arith in
      (
        release_call to_vec treasury recipient seed,
        rw (long, count, enough) refl,
        refl,
        refl,
        release_drains treasury recipient fits,
      )
