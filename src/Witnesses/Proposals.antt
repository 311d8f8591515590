-- ===== src/Witnesses/Proposals.antt =====
-- The theorems on proposals, at two members who vote on one proposal.
use lp_0002_private_multisig.Prelude.{
  ◌≡◌, ◌≢◌, refl, ◌+◌, ◌*◌, Bytes, bytes_eq, to_le_bytes, u32_to_le_bytes, ◌⊎◌, some, get_elem?,
  List, [], ◌∷◌, length, ok, ◌>>=◌, arith, contains, false,
}
use lp_0002_private_multisig.Core.Account.{account_eq}
use lp_0002_private_multisig.Core.Keys.{for_regular_private_account, nullifier_public_key}
use lp_0002_private_multisig.Core.Program.{new_post_state}
use lp_0002_private_multisig.Msig.Scheme.{
  hash_pair, MerkleProof, tree_depth, tree_slots, empty_leaf, resize, merkle_root, merkle_path,
  root_from_path, member_leaf, vote_nullifier,
}
use lp_0002_private_multisig.Msig.Guest.{expected_rider, approve_post, extend_all}
use lp_0002_private_multisig.Msig.Merkle.Soundness.{Collision}
use lp_0002_private_multisig.Msig.Proposal.Abstract.{Proposal, vote, encode}
use lp_0002_private_multisig.Msig.Proposal.Refinement.{stored, vote_posts, approve_post-eq-vote}
use lp_0002_private_multisig.Msig.Proposal.Votes.{none_cast, cast, IsBallot, no_double_vote}
use lp_0002_private_multisig.Msig.Proposal.Approvals.{
  Approvals, untouched, approved, Approvals-IsBallot,
}
use lp_0002_private_multisig.Msig.Proposal.Membership.{
  approve_post_sound, with_vote, member_can_vote, one_leaf_two_members,
}
use lp_0002_private_multisig.Witnesses.Samples.{
  toy_hash, checksum, length-toy_hash, alice, bob, proposal_one, vpk, members, members_root,
  alice_path, bob_path, alice_rider, bob_rider, live_account-ne_default, no_votes, one_vote,
  two_votes, no_votes-IsStored, one_vote-IsStored, two_votes-IsStored, owned_account,
}

approve_post-eq-vote_example :
    approve_post toy_hash (stored owned_account one_vote) bob_rider bob bob_path proposal_one vpk
    ≡ (vote toy_hash one_vote bob_rider bob bob_path proposal_one vpk
        >>= vote_posts toy_hash owned_account bob_rider)
approve_post-eq-vote_example =
    approve_post-eq-vote toy_hash one_vote-IsStored owned_account bob_rider bob bob_path
      proposal_one vpk

alice_votes : vote toy_hash no_votes alice_rider alice alice_path proposal_one vpk ≡ ok one_vote
unfolding vote toy_hash checksum for_regular_private_account nullifier_public_key account_eq
    root_from_path member_leaf vote_nullifier contains encode extend_all bytes_eq to_le_bytes
    u32_to_le_bytes
alice_votes = refl

bob_votes : vote toy_hash one_vote bob_rider bob bob_path proposal_one vpk ≡ ok two_votes
unfolding vote toy_hash checksum for_regular_private_account nullifier_public_key account_eq
    root_from_path member_leaf vote_nullifier contains encode extend_all bytes_eq to_le_bytes
    u32_to_le_bytes
bob_votes = refl

no_double_vote_example :
    approve_post toy_hash
      (stored owned_account two_votes)
      alice_rider
      alice
      alice_path
      proposal_one
      vpk
    ≢ ok (new_post_state owned_account.account ∷ [])
no_double_vote_example =
    no_double_vote toy_hash no_votes alice_rider alice_rider owned_account alice alice_path
      alice_path proposal_one proposal_one vpk vpk (new_post_state owned_account.account ∷ [])
      alice_votes (cast bob_rider bob bob_path proposal_one vpk none_cast bob_votes)
      two_votes-IsStored

merkle_root-members : merkle_root toy_hash members ≡ some members_root
unfolding merkle_root toy_hash checksum member_leaf
merkle_root-members = refl

bob_approves :
    approve_post toy_hash (stored owned_account one_vote) bob_rider bob bob_path proposal_one vpk
    ≡ ok (
        new_post_state (stored owned_account two_votes).account
        ∷ new_post_state bob_rider.account
        ∷ [])
bob_approves = rw (approve_post-eq-vote_example, bob_votes) refl

approve_post_sound_example :
    (get_elem? (resize tree_slots empty_leaf members) 1 ≡ some (member_leaf toy_hash bob))
    ⊎ Collision toy_hash
unfolding toy_hash member_leaf
approve_post_sound_example =
    approve_post_sound toy_hash one_vote-IsStored members owned_account bob_rider bob bob_path.0
      bob_path.1 proposal_one vpk
      (new_post_state (stored owned_account two_votes).account
        ∷ new_post_state bob_rider.account
        ∷ [])
      length-toy_hash (refl, (refl, tt)) (refl, (refl, (refl, (refl, (refl, tt))))) refl
      merkle_root-members bob_approves

bob_leaf : get_elem? (resize tree_slots empty_leaf members) 1 ≡ some (member_leaf toy_hash bob)
unfolding resize
bob_leaf = refl

bob_keyed : bob_rider.account_id ≡ expected_rider toy_hash bob vpk
unfolding toy_hash checksum for_regular_private_account nullifier_public_key to_le_bytes
bob_keyed = refl

bob_is_new : contains one_vote.nullifiers (vote_nullifier toy_hash bob proposal_one) ≡ false
unfolding contains toy_hash checksum vote_nullifier bytes_eq
bob_is_new = refl

bob_has_room : length (encode (with_vote toy_hash one_vote bob)) ≡ 132
unfolding encode extend_all u32_to_le_bytes vote_nullifier toy_hash
bob_has_room = refl

member_can_vote_example :
    (proof : MerkleProof) × (merkle_path toy_hash members 1 ≡ some proof)
    × (approve_post toy_hash (stored owned_account one_vote) bob_rider bob proof proposal_one vpk
        ≡ vote_posts toy_hash owned_account bob_rider (with_vote toy_hash one_vote bob))
member_can_vote_example =
    member_can_vote toy_hash one_vote-IsStored members owned_account bob_rider bob 1 vpk
      merkle_root-members bob_leaf bob_keyed live_account-ne_default bob_is_new
      (omega (arith, bob_has_room))

no_votes-IsBallot : IsBallot toy_hash length-toy_hash no_votes
no_votes-IsBallot = record { is_stored = no_votes-IsStored; distinct = tt }

alice_approves :
    approve_post toy_hash
      (stored owned_account no_votes)
      alice_rider
      alice
      alice_path
      proposal_one
      vpk
    ≡ ok (
        new_post_state (stored owned_account one_vote).account
        ∷ new_post_state alice_rider.account
        ∷ [])
alice_approves =
    rw
      (
        approve_post-eq-vote toy_hash no_votes-IsStored owned_account alice_rider alice alice_path
            proposal_one vpk,
        alice_votes,
      )
      refl

both_approve : Approvals toy_hash (stored owned_account no_votes) (stored owned_account two_votes) 2
both_approve =
    approved bob_rider bob bob_path proposal_one vpk
      (approved alice_rider alice alice_path proposal_one vpk untouched alice_approves) bob_approves

Approvals-IsBallot_example :
    (q : Proposal) × (stored owned_account two_votes ≡ stored owned_account q)
    × IsBallot toy_hash length-toy_hash q
    × (q.member_root ≡ no_votes.member_root)
    × (q.proposal_id ≡ no_votes.proposal_id)
    × (length q.nullifiers ≡ length no_votes.nullifiers + 2)
Approvals-IsBallot_example =
    Approvals-IsBallot toy_hash length-toy_hash owned_account no_votes-IsBallot both_approve

-- Alice and Bob share one leaf.
abbrev shared_leaf : List Bytes
shared_leaf = hash_pair toy_hash (member_leaf toy_hash alice) (member_leaf toy_hash bob) ∷ []

shared_leaf_slot :
    get_elem? (resize tree_slots empty_leaf shared_leaf) 0
    ≡ some (hash_pair toy_hash (member_leaf toy_hash alice) (member_leaf toy_hash bob))
unfolding resize
shared_leaf_slot = refl

one_leaf_two_members_example :
    (path path' : List Bytes) × (merkle_root toy_hash shared_leaf
      ≡ some (root_from_path toy_hash (member_leaf toy_hash alice) (2 * 0, path)))
    × (merkle_root toy_hash shared_leaf
        ≡ some (root_from_path toy_hash (member_leaf toy_hash bob) (2 * 0 + 1, path')))
    × (length path ≡ tree_depth + 1)
    × (length path' ≡ tree_depth + 1)
one_leaf_two_members_example =
    one_leaf_two_members toy_hash shared_leaf 0 alice bob shared_leaf_slot
