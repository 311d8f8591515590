-- ===== src/Msig/Proposal/Membership.antt =====
-- Who can vote: what an accepted approval shows of its secret, and what lets a member vote.
use lp_0002_private_multisig.Prelude.{
  ℕ, ◌+◌, ◌*◌, ◌/◌, ◌%◌, ◌≤◌, ◌≡◌, ◌≢◌, refl, ap, sym, ◌∙◌, ◌⊎◌, false, Bytes, contains, some,
  get_elem?, List, [], ◌∷◌, ◌++◌, length, All, arith, Result, ok, ◌>>=◌, >>=-eq-ok,
}
use lp_0002_private_multisig.Core.Account.{AccountWithMetadata, default_account, data_max_length}
use lp_0002_private_multisig.Core.Program.{AccountPostState}
use lp_0002_private_multisig.Msig.Scheme.{
  MerkleProof, tree_depth, tree_slots, empty_leaf, resize, hash_pair, merkle_root, merkle_path,
  root_from_path, member_leaf, vote_nullifier,
}
use lp_0002_private_multisig.Msig.Guest.{MsigPanic, expected_rider, approve_post}
use lp_0002_private_multisig.Msig.Merkle.Completeness.{root_from_path-merkle_path}
use lp_0002_private_multisig.Msig.Merkle.Soundness.{IsDigest, Collision, root_from_path_sound}
use lp_0002_private_multisig.Msig.Proposal.Abstract.{Proposal, encode, IsStored, vote}
use lp_0002_private_multisig.Msig.Proposal.Refinement.{stored, vote_posts, approve_post-eq-vote}
use lp_0002_private_multisig.Msig.Proposal.Votes.{vote-Accepted, Accepted-vote}

module _ (sha256 : Bytes → Bytes) where
  -- If `approve` succeeds on a proposal whose root is that of `leaves`, with a proof of `TREE_DEPTH`
  -- siblings, then the leaf of the secret is in the slot that the proof names, or SHA-256 collides.
  pub approve_post_sound :
      {p : Proposal} (s : IsStored p) (leaves : List Bytes) (account rider : AccountWithMetadata)
      (secret : Bytes) (index : ℕ) (path : List Bytes) (proposal_id vpk : Bytes)
      (posts : List AccountPostState)
      → ((b : Bytes) → length (sha256 b) ≡ 32)
      → All IsDigest leaves
      → All IsDigest path
      → length path ≡ tree_depth
      → merkle_root sha256 leaves ≡ some p.member_root
      → approve_post sha256 (stored account p) rider secret (index, path) proposal_id vpk ≡ ok posts
      → (get_elem? (resize tree_slots empty_leaf leaves) (index % 32)
          ≡ some (member_leaf sha256 secret))
        ⊎ Collision sha256
  approve_post_sound {p} s leaves account rider secret index path proposal_id vpk posts digest_len
        all all_path depth root e =
      let refined =
        approve_post-eq-vote sha256 s account rider secret (index, path) proposal_id vpk in
      let (voted, accepted, _) =
        >>=-eq-ok (vote sha256 p rider secret (index, path) proposal_id vpk)
          (vote_posts sha256 account rider) (sym refined ∙ e) in
      let a = vote-Accepted sha256 p rider secret (index, path) proposal_id vpk accepted in
      root_from_path_sound sha256 digest_len leaves (member_leaf sha256 secret) index path all
        all_path (unfold member_leaf in digest_len _) depth (root ∙ ap some (sym a.is_member))

  abbrev pub with_vote : Proposal → Bytes → Proposal
  with_vote p secret = record p {
    nullifiers = p.nullifiers ++ vote_nullifier sha256 secret p.proposal_id ∷ [];
  }

  -- A member whose leaf is in slot `index`, who has not voted on the proposal and presents a live
  -- account with the id of the secret, can vote with the proof that `merkle_path` returns, as long as
  -- the new state fits into the account: `approve` stores the proposal with one nullifier more.
  pub member_can_vote :
      {p : Proposal} (s : IsStored p) (leaves : List Bytes) (account rider : AccountWithMetadata)
      (secret : Bytes) (index : ℕ) (vpk : Bytes)
      → merkle_root sha256 leaves ≡ some p.member_root
      → get_elem? (resize tree_slots empty_leaf leaves) index ≡ some (member_leaf sha256 secret)
      → rider.account_id ≡ expected_rider sha256 secret vpk
      → rider.account ≢ default_account
      → contains p.nullifiers (vote_nullifier sha256 secret p.proposal_id) ≡ false
      → length (encode (with_vote p secret)) ≤ data_max_length
      → (proof : MerkleProof) × (merkle_path sha256 leaves index ≡ some proof)
        × (approve_post sha256 (stored account p) rider secret proof p.proposal_id vpk
            ≡ vote_posts sha256 account rider (with_vote p secret))
  member_can_vote {p} s leaves account rider secret index vpk root at keyed live new room =
      let (path, path_eq, _, leads) =
        root_from_path-merkle_path sha256 leaves index (member_leaf sha256 secret) at in
      let same : root_from_path sha256 (member_leaf sha256 secret) (index, path) ≡ p.member_root =
        cc (root, leads) in
      let accepted =
        Accepted-vote sha256 p rider secret (index, path) p.proposal_id vpk
          (record {
            id_matches = refl;
            rider_keyed = keyed;
            rider_live = live;
            is_member = same;
            is_new = new;
            has_room = room;
            result = refl;
          }) in
      (
        (index, path),
        path_eq,
        approve_post-eq-vote sha256 s account rider secret (index, path) p.proposal_id vpk
            ∙ ap (λ (r : Result MsigPanic Proposal). r >>= vote_posts sha256 account rider)
                accepted,
      )

  join_left :
      (i : ℕ) (a b : Bytes) (path : List Bytes)
      → root_from_path sha256 a (2 * i, b ∷ path)
        ≡ root_from_path sha256 (hash_pair sha256 a b) (i, path)
  unfolding root_from_path
  join_left i a b path =
      let even : 2 * i % 2 ≡ 0 = omega arith in
      let half : 2 * i / 2 ≡ i = omega arith in rw (even, half) refl

  join_right :
      (i : ℕ) (a b : Bytes) (path : List Bytes)
      → root_from_path sha256 a (2 * i + 1, b ∷ path)
        ≡ root_from_path sha256 (hash_pair sha256 b a) (i, path)
  unfolding root_from_path
  join_right i a b path =
      let odd : (2 * i + 1) % 2 ≡ 1 = omega arith in
      let half : (2 * i + 1) / 2 ≡ i = omega arith in rw (odd, half) refl

  -- The guest does not check the number of siblings. If an enrolled leaf is the hash of the leaves of
  -- two secrets, each of the two passes the membership check, with a proof of `TREE_DEPTH + 1`
  -- siblings: one enrolled leaf gives two votes.
  pub one_leaf_two_members :
      (leaves : List Bytes) (index : ℕ) (secret secret' : Bytes)
      → get_elem? (resize tree_slots empty_leaf leaves) index
        ≡ some (hash_pair sha256 (member_leaf sha256 secret) (member_leaf sha256 secret'))
      → (path path' : List Bytes) × (merkle_root sha256 leaves
          ≡ some (root_from_path sha256 (member_leaf sha256 secret) (2 * index, path)))
        × (merkle_root sha256 leaves
            ≡ some (root_from_path sha256 (member_leaf sha256 secret') (2 * index + 1, path')))
        × (length path ≡ tree_depth + 1)
        × (length path' ≡ tree_depth + 1)
  one_leaf_two_members leaves index secret secret' at =
      let a = member_leaf sha256 secret in
      let b = member_leaf sha256 secret' in
      let (path, _, depth, leads) =
        root_from_path-merkle_path sha256 leaves index (hash_pair sha256 a b) at in
      (
        b ∷ path,
        a ∷ path,
        leads ∙ ap some (sym (join_left index a b path)),
        leads ∙ ap some (sym (join_right index b a path)),
        omega arith,
        omega arith,
      )
