-- ===== src/Witnesses/Samples.antt =====
-- Concrete data: a small digest function in the place of SHA-256, two members, and a proposal.
use lp_0002_private_multisig.Prelude.{
  ℕ, ◌+◌, ◌*◌, ◌%◌, ◌≡◌, ◌≢◌, refl, ap, List, [], ◌∷◌, Bytes, replicate, length, length-replicate,
  u32_to_le_bytes, true, false, arith,
}
use lp_0002_private_multisig.Core.Account.{Account, AccountWithMetadata, default_account}
use lp_0002_private_multisig.Msig.Scheme.{MerkleProof, member_leaf}
use lp_0002_private_multisig.Msig.Guest.{extend_all}
use lp_0002_private_multisig.Msig.Proposal.Abstract.{Proposal, IsStored, encode}

unfoldable pub checksum : ℕ → Bytes → ℕ
checksum acc [] = acc
checksum acc (b ∷ bs) = checksum ((acc * 31 + b + 7) % 65521) bs

-- 32 copies of the checksum's low byte.
unfoldable pub toy_hash : Bytes → Bytes
unfolding checksum
toy_hash b = replicate 32 (checksum 1 b % 256)

pub length-toy_hash : (b : Bytes) → length (toy_hash b) ≡ 32
unfolding toy_hash
length-toy_hash b = length-replicate 32 (checksum 1 b % 256)

abbrev pub alice : Bytes
alice = replicate 32 7

abbrev pub bob : Bytes
bob = replicate 32 9

abbrev pub proposal_one : Bytes
proposal_one = replicate 32 1

abbrev pub vpk : Bytes
vpk = replicate 32 5

abbrev pub members : List Bytes
members = member_leaf toy_hash alice ∷ member_leaf toy_hash bob ∷ []

-- The root of the members' tree, and the proofs of the two.
abbrev pub members_root : Bytes
members_root = replicate 32 10

abbrev pub upper_siblings : List Bytes
upper_siblings = replicate 32 116 ∷ replicate 32 39 ∷ replicate 32 2 ∷ replicate 32 143 ∷ []

abbrev pub alice_path : MerkleProof
alice_path = (0, replicate 32 50 ∷ upper_siblings)

abbrev pub bob_path : MerkleProof
bob_path = (1, replicate 32 139 ∷ upper_siblings)

-- The nullifiers of the two on the proposal, and the ids of their accounts.
abbrev pub alice_nullifier : Bytes
alice_nullifier = replicate 32 22

abbrev pub bob_nullifier : Bytes
bob_nullifier = replicate 32 153

abbrev pub live_account : Account
live_account = record default_account { nonce = 1 }

abbrev pub alice_rider : AccountWithMetadata
alice_rider = record { account = live_account; is_authorized = true; account_id = replicate 32 243 }

abbrev pub bob_rider : AccountWithMetadata
bob_rider = record { account = live_account; is_authorized = true; account_id = replicate 32 45 }

pub live_account-ne_default : live_account ≢ default_account
live_account-ne_default e = cc (ap (λ (a : Account). a.nonce) e)

-- No vote, one vote, two votes.
abbrev pub ballot : List Bytes → Proposal
ballot nullifiers = record {
  member_root = members_root;
  proposal_id = proposal_one;
  nullifiers = nullifiers;
}

abbrev pub no_votes : Proposal
no_votes = ballot []

abbrev pub one_vote : Proposal
one_vote = ballot (alice_nullifier ∷ [])

abbrev pub two_votes : Proposal
two_votes = ballot (alice_nullifier ∷ bob_nullifier ∷ [])

length-no_votes : length (encode no_votes) ≡ 68
unfolding encode extend_all u32_to_le_bytes
length-no_votes = refl

length-one_vote : length (encode one_vote) ≡ 100
unfolding encode extend_all u32_to_le_bytes
length-one_vote = refl

length-two_votes : length (encode two_votes) ≡ 132
unfolding encode extend_all u32_to_le_bytes
length-two_votes = refl

pub no_votes-IsStored : IsStored no_votes
no_votes-IsStored = record {
  root_len = refl;
  id_len = refl;
  entry_len = tt;
  fits = omega (arith, length-no_votes);
}

pub one_vote-IsStored : IsStored one_vote
one_vote-IsStored = record {
  root_len = refl;
  id_len = refl;
  entry_len = (refl, tt);
  fits = omega (arith, length-one_vote);
}

pub two_votes-IsStored : IsStored two_votes
two_votes-IsStored = record {
  root_len = refl;
  id_len = refl;
  entry_len = (refl, (refl, tt));
  fits = omega (arith, length-two_votes);
}

-- The account that holds a proposal's data, owned by some program.
abbrev pub owned_account : AccountWithMetadata
owned_account = record {
  account = record default_account { program_owner = replicate 8 3 };
  is_authorized = false;
  account_id = replicate 32 6;
}
