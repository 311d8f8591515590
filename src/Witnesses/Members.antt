-- ===== src/Witnesses/Members.antt =====
-- A state that is seeded with a private account, and a program that is deployed in it.
use lp_0002_private_multisig.Prelude.{
  Option, none, ◌≡◌, refl, bytes_eq, contains, some, [], ◌∷◌, replicate, ok, true,
}
use lp_0002_private_multisig.Prelude.HashMap
use lp_0002_private_multisig.Core.Commitments.{Commitment, MembershipProof, compute_digest_for_path}
use lp_0002_private_multisig.MerkleTree
use lp_0002_private_multisig.State.Types.{V03State, StateDiff}
use lp_0002_private_multisig.State.Apply.{
  apply_state_diff, write_accounts, increment_nonces, extend_set, insert_program,
  insert_commitments, extend_commitments,
}
use lp_0002_private_multisig.State.Private.{
  contains_commitment, from_program_deployment_transaction, program_new,
}
use lp_0002_private_multisig.State.Genesis.{
  digest, get_proof_for, empty_commitments, first_commitments, default_state, unzip,
  with_public_account_balances, with_public_accounts, with_private_accounts, with_programs,
  insert_programs,
}
use lp_0002_private_multisig.State.History.{start, transition, by_deployment}
use lp_0002_private_multisig.State.Membership.{History-get_proof_for}
use lp_0002_private_multisig.Witnesses.Samples.{toy_hash}
use lp_0002_private_multisig.Witnesses.Ledger.{toy_host, sender_id, owned, before, with_commitments}
use lp_0002_private_multisig.Witnesses.Private.{toy_privacy}

abbrev note : Commitment
note = replicate 32 9

abbrev or_empty : Option V03State → V03State
or_empty none = before
or_empty (some s) = s

abbrev default : V03State
default = or_empty (default_state toy_hash)

abbrev seeded : V03State
seeded = or_empty (with_private_accounts toy_hash default ((note, replicate 32 8) ∷ []))

abbrev genesis : V03State
genesis =
    with_programs
      (with_public_accounts (with_public_account_balances seeded ((sender_id, 1000) ∷ []))
        ((replicate 32 12, owned 5 0) ∷ []))
      []

abbrev deployment : StateDiff
deployment = record {
  signer_account_ids = [];
  public_diff = [];
  new_commitments = [];
  new_nullifiers = [];
  program = some (record { id = replicate 8 66; elf = 127 ∷ [] });
}

abbrev next_state : V03State
next_state = record genesis {
  commitment_set = with_commitments genesis.commitment_set [];
  programs = (replicate 8 66, record { id = replicate 8 66; elf = 127 ∷ [] }) ∷ [];
}

default_found : default_state toy_hash ≡ some default
unfolding default_state first_commitments extend_commitments insert_commitments MerkleTree.insert
    empty_commitments MerkleTree.with_capacity MerkleTree.next_power_of_two MerkleTree.double_until
    MerkleTree.trailing_zeros MerkleTree.count_zeros MerkleTree.default_values MerkleTree.empty_tree
    MerkleTree.insert_with_room MerkleTree.reallocate_to_double_capacity
default_found = refl

seeded_found : with_private_accounts toy_hash default ((note, replicate 32 8) ∷ []) ≡ some seeded
unfolding with_private_accounts unzip default_state first_commitments extend_commitments
    insert_commitments MerkleTree.insert empty_commitments MerkleTree.with_capacity
    MerkleTree.next_power_of_two MerkleTree.double_until MerkleTree.trailing_zeros
    MerkleTree.count_zeros MerkleTree.default_values MerkleTree.empty_tree
    MerkleTree.insert_with_room MerkleTree.reallocate_to_double_capacity
seeded_found = refl

deployment_accepted :
    from_program_deployment_transaction toy_privacy genesis (127 ∷ []) ≡ ok deployment
unfolding from_program_deployment_transaction program_new HashMap.get with_programs insert_programs
    with_public_accounts with_public_account_balances with_private_accounts unzip default_state
    first_commitments extend_commitments insert_commitments MerkleTree.insert empty_commitments
    MerkleTree.with_capacity MerkleTree.next_power_of_two MerkleTree.double_until
    MerkleTree.trailing_zeros MerkleTree.count_zeros MerkleTree.default_values MerkleTree.empty_tree
    MerkleTree.insert_with_room MerkleTree.reallocate_to_double_capacity
deployment_accepted = refl

deployment_done : apply_state_diff toy_hash genesis deployment ≡ some next_state
unfolding apply_state_diff write_accounts increment_nonces HashMap.insert extend_set insert_program
    with_programs insert_programs with_public_accounts with_public_account_balances
    with_private_accounts unzip default_state first_commitments extend_commitments
    insert_commitments MerkleTree.insert empty_commitments MerkleTree.with_capacity
    MerkleTree.next_power_of_two MerkleTree.double_until MerkleTree.trailing_zeros
    MerkleTree.count_zeros MerkleTree.default_values MerkleTree.empty_tree
    MerkleTree.insert_with_room MerkleTree.reallocate_to_double_capacity
deployment_done = refl

note_is_member : contains_commitment next_state.commitment_set note ≡ true
unfolding contains_commitment HashMap.get HashMap.insert bytes_eq with_programs insert_programs
    with_public_accounts with_public_account_balances with_private_accounts unzip default_state
    first_commitments extend_commitments insert_commitments MerkleTree.insert empty_commitments
    MerkleTree.with_capacity MerkleTree.next_power_of_two MerkleTree.double_until
    MerkleTree.trailing_zeros MerkleTree.count_zeros MerkleTree.default_values MerkleTree.empty_tree
    MerkleTree.insert_with_room MerkleTree.reallocate_to_double_capacity
note_is_member = refl

History-get_proof_for_example :
    (proof : MembershipProof) × (get_proof_for next_state.commitment_set note ≡ some proof)
    × (compute_digest_for_path toy_hash note proof ≡ digest next_state.commitment_set)
    × (contains next_state.commitment_set.root_history (digest next_state.commitment_set) ≡ true)
History-get_proof_for_example =
    History-get_proof_for toy_host toy_privacy ((sender_id, 1000) ∷ [])
      ((replicate 32 12, owned 5 0) ∷ []) ((note, replicate 32 8) ∷ []) [] note default_found
      seeded_found (transition start (by_deployment (127 ∷ []) deployment_accepted) deployment_done)
      note_is_member
