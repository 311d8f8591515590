-- ===== src/Msig/Guest.antt =====
-- The on-chain guest, lee/state_machine/test_methods/guest/src/bin/msig.rs. A panic is an error, and
-- a `main` that returns before it writes an output returns `none`. Parameters: SHA-256 of the zkVM,
-- and `to_vec`, the risc0 serializer at the instructions of the transfer program.
use lp_0002_private_multisig.Prelude.{
  ℕ, zero, suc, ◌+◌, ◌%◌, true, not, Option, none, some, List, [], ◌∷◌, ◌++◌, Bytes, bytes_eq,
  contains, slice, u32_to_le_bytes, u32_from_le_bytes, u32_mod, length, take, drop, leb,
  if◌then◌else◌, Result, ok, ◌>>=◌, ◌>>◌, ensure, ok_or,
}
use lp_0002_private_multisig.Core.Account.{
  ProgramId, AccountWithMetadata, default_account, default_program_id, account_eq, try_into_data,
}
use lp_0002_private_multisig.Core.Keys.{nullifier_public_key, for_regular_private_account}
use lp_0002_private_multisig.Core.Program.{
  InstructionData, ChainedCall, AccountPostState, ProgramInput, ProgramOutput, authorized,
  new_post_state, new_claimed, new_output, with_chained_calls,
}
use lp_0002_private_multisig.AuthenticatedTransfer.{Instruction}
use lp_0002_private_multisig.Msig.Scheme.{
  MerkleProof, MsigInstruction, create_proposal, approve, enroll, init_treasury, execute,
  proposal_header_len, registry_header_len, merkle_root, root_from_path, member_leaf,
  vote_nullifier,
}

pub data MsigPanic : Type 0 where
  header_too_short proposal_id_mismatch rider_not_keyed_by_secret rider_not_live : MsigPanic
  not_a_member nullifier_set_truncated double_vote data_too_big : MsigPanic
  registry_leaf_truncated below_threshold index_out_of_range : MsigPanic

abbrev pub vote_identifier : ℕ
vote_identifier = 0

-- `for x in &xs { buf.extend_from_slice(x) }`
unfoldable pub extend_all : List Bytes → Bytes
extend_all [] = []
extend_all (x ∷ xs) = x ++ extend_all xs

-- `for _ in 0..count { xs.push(data[offset..offset + 32]); offset += 32 }`; `none` is the panic of a
-- slice out of range.
unfoldable pub read_entries : ℕ → ℕ → Bytes → Option (List Bytes)
read_entries zero offset bytes = some []
read_entries (suc count) offset bytes = elim (slice offset (offset + 32) bytes) [
  | none ↦ none
  | some entry ↦ elim (read_entries count (offset + 32) bytes) [
    | none ↦ none
    | some entries ↦ some (entry ∷ entries)
  ]
]

-- The three fields of a proposal's header.
abbrev pub state_member_root : Bytes → Bytes
state_member_root bytes = take 32 bytes

abbrev pub state_proposal_id : Bytes → Bytes
state_proposal_id bytes = take 32 (drop 32 bytes)

abbrev pub state_approval_count : Bytes → ℕ
state_approval_count bytes = u32_from_le_bytes (take 4 (drop 64 bytes))

-- `fn create_proposal`
unfoldable pub create_proposal_post :
    AccountWithMetadata → Bytes → Bytes → Result MsigPanic (List AccountPostState)
create_proposal_post proposal member_root proposal_id = do
  new_data ← ok_or (try_into_data (member_root ++ proposal_id ++ u32_to_le_bytes 0)) data_too_big
  ok (new_claimed (record proposal.account { data_bytes = new_data }) authorized ∷ [])

-- The leaves that the registry holds: none if the data is shorter than the header.
unfoldable pub registry_leaves : Bytes → Result MsigPanic (List Bytes)
unfolding read_entries
registry_leaves bytes =
    if leb registry_header_len (length bytes)
    then ok_or (read_entries (u32_from_le_bytes (take 4 (drop 32 bytes))) registry_header_len bytes)
        registry_leaf_truncated
    else ok []

module _ (sha256 : Bytes → Bytes) where
  -- `fn enroll`
  unfoldable pub enroll_post :
      AccountWithMetadata → Bytes → Result MsigPanic (List AccountPostState)
  enroll_post registry leaf = do
    old_leaves ← registry_leaves registry.account.data_bytes
    let leaves = old_leaves ++ leaf ∷ []
    root ← ok_or (merkle_root sha256 leaves) index_out_of_range
    new_data ←
        ok_or
          (try_into_data (root ++ u32_to_le_bytes (length leaves % u32_mod) ++ extend_all leaves))
          data_too_big
    let account = record registry.account { data_bytes = new_data }
    ok (
        (if bytes_eq registry.account.program_owner default_program_id
          then new_claimed account authorized
          else new_post_state account)
        ∷ [])

  -- The account id that the rider must have.
  abbrev pub expected_rider : Bytes → Bytes → Bytes
  expected_rider secret vpk =
      for_regular_private_account sha256 (nullifier_public_key sha256 secret) vpk vote_identifier

  -- `fn approve`
  unfoldable pub approve_post :
      AccountWithMetadata
      → AccountWithMetadata
      → Bytes
      → MerkleProof
      → Bytes
      → Bytes
      → Result MsigPanic (List AccountPostState)
  approve_post proposal rider secret merkle_path proposal_id vpk = do
    let bytes = proposal.account.data_bytes
    ensure (leb proposal_header_len (length bytes)) header_too_short
    let member_root = state_member_root bytes
    let proposal_id_state = state_proposal_id bytes
    let count = state_approval_count bytes
    ensure (bytes_eq proposal_id proposal_id_state) proposal_id_mismatch
    ensure (bytes_eq rider.account_id (expected_rider secret vpk)) rider_not_keyed_by_secret
    ensure (not (account_eq rider.account default_account)) rider_not_live
    ensure (bytes_eq (root_from_path sha256 (member_leaf sha256 secret) merkle_path) member_root)
        not_a_member
    let nullifier = vote_nullifier sha256 secret proposal_id
    nullifiers ← ok_or (read_entries count proposal_header_len bytes) nullifier_set_truncated
    ensure (not (contains nullifiers nullifier)) double_vote
    new_data ←
        ok_or
          (try_into_data (
            member_root
            ++ proposal_id_state
            ++ u32_to_le_bytes ((count + 1) % u32_mod)
            ++ extend_all (nullifiers ++ nullifier ∷ [])))
          data_too_big
    ok (
        new_post_state (record proposal.account { data_bytes = new_data })
        ∷ new_post_state rider.account
        ∷ [])

-- `treasury_authorized`
abbrev pub set_authorized : AccountWithMetadata → AccountWithMetadata
set_authorized a = record a { is_authorized = true }

module _ (to_vec : Instruction → InstructionData) where
  -- `fn execute`
  unfoldable pub execute_calls :
      AccountWithMetadata
      → AccountWithMetadata
      → AccountWithMetadata
      → ℕ
      → Bytes
      → Result MsigPanic (List AccountPostState × List ChainedCall)
  execute_calls proposal treasury recipient threshold seed = do
    let bytes = proposal.account.data_bytes
    ensure (leb proposal_header_len (length bytes)) header_too_short
    ensure (leb threshold (state_approval_count bytes)) below_threshold
    let chained_call : ChainedCall = record {
      program_id = treasury.account.program_owner;
      pre_states = set_authorized treasury ∷ recipient ∷ [];
      instruction_data = to_vec (Instruction.transfer treasury.account.balance);
      pda_seeds = seed ∷ [];
    }
    ok (
      new_post_state proposal.account
          ∷ new_post_state treasury.account
          ∷ new_post_state recipient.account
          ∷ [],
      chained_call ∷ [],
    )

  -- `fn init_treasury`
  unfoldable pub init_treasury_calls :
      AccountWithMetadata → Bytes → ProgramId → List AccountPostState × List ChainedCall
  init_treasury_calls treasury seed transfer_program_id =
      let chained_call : ChainedCall = record {
        program_id = transfer_program_id;
        pre_states = set_authorized treasury ∷ [];
        instruction_data = to_vec Instruction.initialize;
        pda_seeds = seed ∷ [];
      } in
      (new_post_state treasury.account ∷ [], chained_call ∷ [])

-- `Option` inside: whether an output is written.
abbrev Written : Type 0
Written = Result MsigPanic (Option ProgramOutput)

abbrev write : ProgramInput MsigInstruction → List AccountPostState → List ChainedCall → Written
write input post_states chained_calls = ok (
    some (
      with_chained_calls
        (new_output input.self_program_id input.caller_program_id input.instruction_words
          input.pre_states post_states)
        chained_calls))

module _ (sha256 : Bytes → Bytes) (to_vec : Instruction → InstructionData) where
  -- The `match` of `main`; a wrong number of accounts returns without an output.
  unfoldable pub dispatch :
      ProgramInput MsigInstruction → MsigInstruction → List AccountWithMetadata → Written
  unfolding create_proposal_post enroll_post approve_post execute_calls init_treasury_calls
  dispatch input (create_proposal member_root proposal_id) (proposal ∷ []) = do
    post_states ← create_proposal_post proposal member_root proposal_id
    write input post_states []
  dispatch input (approve secret merkle_path proposal_id vpk) (proposal ∷ rider ∷ []) = do
    post_states ← approve_post sha256 proposal rider secret merkle_path proposal_id vpk
    write input post_states []
  dispatch input (enroll leaf) (registry ∷ []) = do
    post_states ← enroll_post sha256 registry leaf
    write input post_states []
  dispatch input (init_treasury seed transfer_program_id) (treasury ∷ []) =
      let (post_states, chained_calls) =
        init_treasury_calls to_vec treasury seed transfer_program_id in
      write input post_states chained_calls
  dispatch input (execute threshold seed) (proposal ∷ treasury ∷ recipient ∷ []) = do
    (post_states, chained_calls) ← execute_calls to_vec proposal treasury recipient threshold seed
    write input post_states chained_calls
  dispatch input _ _ = ok none

  -- `main`
  unfoldable pub main : ProgramInput MsigInstruction → Written
  unfolding dispatch
  main input = dispatch input input.instruction input.pre_states
