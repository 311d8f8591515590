-- ===== src/Witnesses/Accounts.antt =====
-- The theorems on the tree of the members, the registry, the treasury and the rules of execution.
use lp_0002_private_multisig.Prelude.{
  ◌≡◌, refl, ◌+◌, ◌^◌, ◌↔◌, ◌⊎◌, ◌++◌, Bytes, some, get_elem?, List, [], ◌∷◌, length, ok, ◌>>◌, leb,
  arith, replicate, length-replicate, ensure, false, u32_to_le_bytes,
}
use lp_0002_private_multisig.Core.Account.{AccountWithMetadata, data_max_length, default_account}
use lp_0002_private_multisig.Core.Program.{
  AccountPostState, ChainedCall, InstructionData, new_post_state,
}
use lp_0002_private_multisig.Core.Balances.{
  WrappedBalanceSum, from_balances, value, sum, IsU128, from_balances-eq-sum,
}
use lp_0002_private_multisig.Core.Validation.{validate_execution}
use lp_0002_private_multisig.Core.Validation.Rules.{
  AreBalances, IsWellBehaved, validate_execution_iff,
}
use lp_0002_private_multisig.AuthenticatedTransfer.{
  Instruction, run_instruction, transfer_balance, checked_sub, checked_add, recipient_post_state,
}
use lp_0002_private_multisig.AuthenticatedTransfer.Conformance.{transfer-IsWellBehaved}
use lp_0002_private_multisig.Prelude.{◌≢◌, inr, bytes_eq}
use lp_0002_private_multisig.Core.Account.{default_program_id}
use lp_0002_private_multisig.Msig.Guest.{set_authorized}
use lp_0002_private_multisig.Msig.Scheme.{
  tree_depth, tree_slots, empty_leaf, resize, merkle_root, merkle_path, root_from_path, member_leaf,
}
use lp_0002_private_multisig.Msig.Guest.{
  execute_calls, data_too_big, extend_all, enroll_post, registry_leaves,
}
use lp_0002_private_multisig.Msig.Merkle.Completeness.{root_from_path-merkle_path}
use lp_0002_private_multisig.Msig.Merkle.Soundness.{Collision, root_from_path_sound}
use lp_0002_private_multisig.Msig.Proposal.Refinement.{stored}
use lp_0002_private_multisig.Msig.Registry.{
  encode_registry, IsRegistry, with_data, registry_post, registry_leaves-encode, enroll_post-encode,
  merkle_root-late_leaf,
}
use lp_0002_private_multisig.Msig.Treasury.{
  release_call, unchanged, execute_calls-stored, forged_proposal-drains,
}
use lp_0002_private_multisig.Witnesses.Samples.{
  toy_hash, checksum, length-toy_hash, alice, bob, members, members_root, bob_path, two_votes,
  two_votes-IsStored, owned_account, live_account,
}

bob_slot : get_elem? (resize tree_slots empty_leaf members) 1 ≡ some (member_leaf toy_hash bob)
unfolding resize
bob_slot = refl

root_from_path-merkle_path_example :
    (path : List Bytes) × (merkle_path toy_hash members 1 ≡ some (1, path))
    × (length path ≡ tree_depth)
    × (merkle_root toy_hash members
        ≡ some (root_from_path toy_hash (member_leaf toy_hash bob) (1, path)))
root_from_path-merkle_path_example =
    root_from_path-merkle_path toy_hash members 1 (member_leaf toy_hash bob) bob_slot

bob_proves :
    merkle_root toy_hash members
    ≡ some (root_from_path toy_hash (member_leaf toy_hash bob) bob_path)
unfolding merkle_root root_from_path toy_hash checksum member_leaf
bob_proves = refl

root_from_path_sound_example :
    (get_elem? (resize tree_slots empty_leaf members) 1 ≡ some (member_leaf toy_hash bob))
    ⊎ Collision toy_hash
unfolding toy_hash member_leaf
root_from_path_sound_example =
    root_from_path_sound toy_hash length-toy_hash members (member_leaf toy_hash bob) 1 bob_path.1
      (refl, (refl, tt)) (refl, (refl, (refl, (refl, (refl, tt))))) refl refl bob_proves

-- A serializer of the transfer program's instructions.
abbrev toy_to_vec : Instruction → InstructionData
toy_to_vec (Instruction.transfer amount) = 0 ∷ amount ∷ []
toy_to_vec Instruction.initialize = 1 ∷ []

abbrev treasury : AccountWithMetadata
treasury = record {
  account = record default_account { program_owner = replicate 8 4; balance = 1000 };
  is_authorized = false;
  account_id = replicate 32 8;
}

abbrev recipient : AccountWithMetadata
recipient = record {
  account = record default_account { program_owner = replicate 8 4 };
  is_authorized = false;
  account_id = replicate 32 11;
}

abbrev seed : Bytes
seed = replicate 32 12

execute_calls-stored_example :
    execute_calls toy_to_vec (stored owned_account two_votes) treasury recipient 2 seed
    ≡ ok (
      unchanged toy_to_vec (stored owned_account two_votes) treasury recipient,
      release_call toy_to_vec treasury recipient seed ∷ [],
    )
execute_calls-stored_example =
    execute_calls-stored toy_to_vec two_votes-IsStored owned_account treasury recipient 2 seed

-- Account data that no proposal has written.
abbrev forged : AccountWithMetadata
forged = record recipient {
  account = record live_account {
    data_bytes = replicate 32 1 ++ replicate 32 2 ++ u32_to_le_bytes 2;
  };
}

forged_proposal-drains_example :
    (call : ChainedCall) × (execute_calls toy_to_vec forged treasury recipient 2 seed
      ≡ ok (unchanged toy_to_vec forged treasury recipient, call ∷ []))
    × (call.program_id ≡ treasury.account.program_owner)
    × (call.instruction_data ≡ toy_to_vec (Instruction.transfer treasury.account.balance))
    × (run_instruction (Instruction.transfer treasury.account.balance) call.pre_states
        ≡ ok (
            new_post_state (record treasury.account { balance = 0 })
            ∷ recipient_post_state (record recipient.account {
              balance = recipient.account.balance + treasury.account.balance;
            })
            ∷ []))
forged_proposal-drains_example =
    forged_proposal-drains toy_to_vec forged treasury recipient 2 seed (replicate 32 1)
      (replicate 32 2) (omega arith) refl refl refl (omega arith)

length-registry : length (encode_registry members_root members) ≡ 100
unfolding encode_registry extend_all u32_to_le_bytes member_leaf toy_hash
length-registry = refl

members-IsRegistry : IsRegistry members_root members
unfolding toy_hash member_leaf
members-IsRegistry = record {
  root_len = refl;
  entry_len = (refl, (refl, tt));
  fits = omega (arith, length-registry);
}

registry_leaves-encode_example : registry_leaves (encode_registry members_root members) ≡ ok members
registry_leaves-encode_example = registry_leaves-encode members-IsRegistry

abbrev carol_leaf : Bytes
carol_leaf = replicate 32 77

carol_root : merkle_root toy_hash (members ++ carol_leaf ∷ []) ≡ some (replicate 32 163)
unfolding merkle_root toy_hash checksum member_leaf
carol_root = refl

enroll_post-encode_example :
    enroll_post toy_hash (with_data owned_account (encode_registry members_root members)) carol_leaf
    ≡ (ensure
          (leb
            (length (encode_registry (replicate 32 163) (members ++ carol_leaf ∷ [])))
            data_max_length)
          data_too_big
        >> ok (
            registry_post owned_account
              (with_data owned_account
                (encode_registry (replicate 32 163) (members ++ carol_leaf ∷ []))).account
            ∷ []))
enroll_post-encode_example =
    enroll_post-encode toy_hash members-IsRegistry owned_account carol_leaf (replicate 32 163)
      carol_root

abbrev crowd : List Bytes
crowd = replicate 32 carol_leaf

merkle_root-late_leaf_example :
    merkle_root toy_hash (crowd ++ alice ∷ []) ≡ merkle_root toy_hash crowd
merkle_root-late_leaf_example =
    merkle_root-late_leaf toy_hash crowd alice (omega (arith, length-replicate 32 carol_leaf))

from_balances-eq-sum_example :
    (v : WrappedBalanceSum) × (from_balances (2 ^ 127 ∷ 2 ^ 127 ∷ 5 ∷ []) ≡ some v)
    × IsU128 v.lo
    × (value v ≡ sum (2 ^ 127 ∷ 2 ^ 127 ∷ 5 ∷ []))
from_balances-eq-sum_example =
    from_balances-eq-sum (2 ^ 127 ∷ 2 ^ 127 ∷ 5 ∷ [])
      (omega arith, (omega arith, (omega arith, tt))) (omega arith)

-- 30 units go from the treasury to the recipient.
abbrev pres : List AccountWithMetadata
pres = treasury ∷ recipient ∷ []

abbrev posts : List AccountPostState
posts =
    new_post_state (record treasury.account { balance = 970 })
    ∷ new_post_state (record recipient.account { balance = 30 })
    ∷ []

pres-AreBalances : AreBalances pres posts
pres-AreBalances = record {
  pre_u128 = (omega arith, (omega arith, tt));
  post_u128 = (omega arith, (omega arith, tt));
  pre_count = omega arith;
  post_count = omega arith;
}

validate_execution_iff_example :
    (validate_execution pres posts (replicate 8 4) ≡ ok tt)
    ↔ IsWellBehaved pres posts (replicate 8 4)
validate_execution_iff_example = validate_execution_iff pres posts (replicate 8 4) pres-AreBalances

ids_differ : treasury.account_id ≢ recipient.account_id
ids_differ e = cc

owner_is_real : ◌≢◌ {A = Bytes} (replicate 8 4) default_program_id
owner_is_real e = cc

transfer_runs :
    run_instruction (Instruction.transfer 30) (set_authorized treasury ∷ recipient ∷ []) ≡ ok posts
unfolding run_instruction transfer_balance checked_sub checked_add recipient_post_state bytes_eq
transfer_runs = refl

transfer-IsWellBehaved_example :
    IsWellBehaved (set_authorized treasury ∷ recipient ∷ []) posts (replicate 8 4)
transfer-IsWellBehaved_example =
    transfer-IsWellBehaved (set_authorized treasury) recipient 30 (replicate 8 4) ids_differ refl
      owner_is_real (inr owner_is_real) transfer_runs
