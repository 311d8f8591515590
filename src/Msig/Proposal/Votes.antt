-- ===== src/Msig/Proposal/Votes.antt =====
-- Sequences of votes on one abstract proposal.
use mathlib.Core.Path.{subst}
use lp_0002_private_multisig.Prelude.{
  ℕ, zero, suc, ◌+◌, ◌≤◌, ◌≡◌, ◌≢◌, refl, ap, sym, ◌∙◌, Bool, true, false, ◌||◌, Bytes,
  bytes_eq_iff, bytes_eq_refl, contains, contains-append, IsDistinct, List, [], ◌∷◌, ◌++◌, length,
  length-append, All-append, arith, ok, >>=-eq-ok,
}
use lp_0002_private_multisig.Core.Account.{
  AccountWithMetadata, default_account, account_eq_iff, data_max_length,
}
use lp_0002_private_multisig.Core.Program.{AccountPostState}
use lp_0002_private_multisig.Msig.Scheme.{MerkleProof, root_from_path, member_leaf, vote_nullifier}
use lp_0002_private_multisig.Msig.Guest.{expected_rider, approve_post}
use lp_0002_private_multisig.Msig.Merkle.Soundness.{IsDigest}
use lp_0002_private_multisig.Msig.Proposal.Abstract.{Proposal, encode, IsStored, vote}
use lp_0002_private_multisig.Msig.Proposal.Refinement.{stored, vote_posts, approve_post-eq-vote}

-- One more element keeps a list distinct if it is new.
IsDistinct-append :
    (s : List Bytes) (b : Bytes) → IsDistinct s → contains s b ≡ false → IsDistinct (s ++ b ∷ [])
unfolding contains
IsDistinct-append [] b h new = ground arith
IsDistinct-append (a ∷ s) b h new = (
  ground (arith, contains-append s (b ∷ []) a, bytes_eq_iff a b, bytes_eq_iff b a, h.0),
  IsDistinct-append s b h.1 (ground arith),
)

module _ (sha256 : Bytes → Bytes) where
  -- What an accepted vote has shown.
  pub record Accepted (p : Proposal) (rider : AccountWithMetadata) (secret : Bytes)
      (path : MerkleProof) (proposal_id vpk : Bytes) (q : Proposal) : Type 0 where
    pub id_matches : proposal_id ≡ p.proposal_id
    pub rider_keyed : rider.account_id ≡ expected_rider sha256 secret vpk
    pub rider_live : rider.account ≢ default_account
    pub is_member : root_from_path sha256 (member_leaf sha256 secret) path ≡ p.member_root
    pub is_new : contains p.nullifiers (vote_nullifier sha256 secret proposal_id) ≡ false
    pub has_room : length (encode q) ≤ data_max_length
    pub result :
        q ≡ record p { nullifiers = p.nullifiers ++ vote_nullifier sha256 secret proposal_id ∷ [] }

  -- A vote is accepted exactly under these conditions.
  pub vote-Accepted :
      (p : Proposal) (rider : AccountWithMetadata) (secret : Bytes) (path : MerkleProof)
      (proposal_id vpk : Bytes) {q : Proposal}
      → vote sha256 p rider secret path proposal_id vpk ≡ ok q
      → Accepted p rider secret path proposal_id vpk q
  unfolding vote
  vote-Accepted p rider secret path proposal_id vpk h = ground (
    arith,
    bytes_eq_iff proposal_id p.proposal_id,
    bytes_eq_iff rider.account_id (expected_rider sha256 secret vpk),
    account_eq_iff rider.account default_account,
    bytes_eq_iff (root_from_path sha256 (member_leaf sha256 secret) path) p.member_root,
  )

  pub Accepted-vote :
      (p : Proposal) (rider : AccountWithMetadata) (secret : Bytes) (path : MerkleProof)
      (proposal_id vpk : Bytes) {q : Proposal}
      → Accepted p rider secret path proposal_id vpk q
      → vote sha256 p rider secret path proposal_id vpk ≡ ok q
  unfolding vote
  Accepted-vote p rider secret path proposal_id vpk h = ground (
    arith,
    bytes_eq_iff proposal_id p.proposal_id,
    bytes_eq_iff rider.account_id (expected_rider sha256 secret vpk),
    account_eq_iff rider.account default_account,
    bytes_eq_iff (root_from_path sha256 (member_leaf sha256 secret) path) p.member_root,
  )

  -- Votes one after another.
  pub data Ballots (p : Proposal) : Proposal → ℕ → Type 0 where
    none_cast : Ballots p p zero
    cast :
        {q r : Proposal} {n : ℕ} (rider : AccountWithMetadata) (secret : Bytes) (path : MerkleProof)
        (proposal_id vpk : Bytes)
        → Ballots p q n
        → vote sha256 q rider secret path proposal_id vpk ≡ ok r
        → Ballots p r (suc n)

  module _ (digest_len : (b : Bytes) → length (sha256 b) ≡ 32) where
    length-vote_nullifier : (a b : Bytes) → length (vote_nullifier sha256 a b) ≡ 32
    unfolding vote_nullifier
    length-vote_nullifier a b = digest_len _

    -- What a stored proposal keeps under a vote.
    pub record IsBallot (p : Proposal) : Type 0 where
      pub is_stored : IsStored p
      pub distinct : IsDistinct p.nullifiers

    pub vote-IsBallot :
        {p q : Proposal} (rider : AccountWithMetadata) (secret : Bytes) (path : MerkleProof)
        (proposal_id vpk : Bytes)
        → IsBallot p
        → vote sha256 p rider secret path proposal_id vpk ≡ ok q
        → IsBallot q
    vote-IsBallot {p} {q} rider secret path proposal_id vpk b h =
        let a = vote-Accepted p rider secret path proposal_id vpk h in
        let voted : Proposal = record p {
          nullifiers = p.nullifiers ++ vote_nullifier sha256 secret proposal_id ∷ [];
        } in
        let next : IsBallot voted = record {
          is_stored = record {
            root_len = b.is_stored.root_len;
            id_len = b.is_stored.id_len;
            entry_len =
                All-append IsDigest p.nullifiers (vote_nullifier sha256 secret proposal_id ∷ [])
                  b.is_stored.entry_len (length-vote_nullifier secret proposal_id, tt);
            fits =
                subst (λ (r : Proposal). length (encode r) ≤ data_max_length) a.result a.has_room;
          };
          distinct = IsDistinct-append p.nullifiers _ b.distinct a.is_new;
        } in
        subst IsBallot (sym a.result) next

    -- From a ballot, `n` accepted votes: the root and the id are those of the start, there are `n`
    -- more nullifiers, all of them distinct, and the proposal still fits into its account.
    pub Ballots-IsBallot :
        {p q : Proposal} {n : ℕ}
        → IsBallot p
        → Ballots p q n
        → IsBallot q
          × (q.member_root ≡ p.member_root)
          × (q.proposal_id ≡ p.proposal_id)
          × (length q.nullifiers ≡ length p.nullifiers + n)
    Ballots-IsBallot b none_cast = (b, refl, refl, omega arith)
    Ballots-IsBallot b (cast {q} {r} rider secret path proposal_id vpk v h) =
        let (bq, root, id, len) = Ballots-IsBallot b v in
        let a = vote-Accepted q rider secret path proposal_id vpk h in
        (
          vote-IsBallot rider secret path proposal_id vpk bq h,
          ap (λ (t : Proposal). t.member_root) a.result ∙ root,
          ap (λ (t : Proposal). t.proposal_id) a.result ∙ id,
          omega (
            arith,
            ap (λ (t : Proposal). length t.nullifiers) a.result,
            length-append q.nullifiers (vote_nullifier sha256 secret proposal_id ∷ []),
            len,
          ),
        )

  -- A nullifier that is recorded stays recorded.
  Ballots-contains :
      {p q : Proposal} {n : ℕ} (x : Bytes)
      → Ballots p q n
      → contains p.nullifiers x ≡ true
      → contains q.nullifiers x ≡ true
  Ballots-contains x none_cast h = h
  Ballots-contains x (cast {q} {r} rider secret path proposal_id vpk v e) h =
      let a = vote-Accepted q rider secret path proposal_id vpk e in
      ap (λ (t : Proposal). contains t.nullifiers x) a.result
      ∙ contains-append q.nullifiers (vote_nullifier sha256 secret proposal_id ∷ []) x
      ∙ ap (λ (t : Bool). t || contains (vote_nullifier sha256 secret proposal_id ∷ []) x)
          (Ballots-contains x v h)

  contains-last : (s : List Bytes) (x : Bytes) → contains (s ++ x ∷ []) x ≡ true
  unfolding contains
  contains-last s x = ground (arith, contains-append s (x ∷ []) x, bytes_eq_refl x)

  Ballots-proposal_id : {p q : Proposal} {n : ℕ} → Ballots p q n → q.proposal_id ≡ p.proposal_id
  Ballots-proposal_id none_cast = refl
  Ballots-proposal_id (cast {q} {r} rider secret path proposal_id vpk v h) =
      ap (λ (t : Proposal). t.proposal_id)
        (vote-Accepted q rider secret path proposal_id vpk h).result
      ∙ Ballots-proposal_id v

  -- After an accepted vote with a secret, and any number of votes by others, an `approve` of the
  -- stored proposal with the same secret never succeeds, whatever its rider, path, id and viewing key.
  pub no_double_vote :
      (p : Proposal) {q r : Proposal} {n : ℕ} (rider rider' account : AccountWithMetadata)
      (secret : Bytes) (path path' : MerkleProof) (proposal_id proposal_id' vpk vpk' : Bytes)
      (posts : List AccountPostState)
      → vote sha256 p rider secret path proposal_id vpk ≡ ok q
      → Ballots q r n
      → IsStored r
      → approve_post sha256 (stored account r) rider' secret path' proposal_id' vpk' ≢ ok posts
  no_double_vote p {q} {r} rider rider' account secret path path' proposal_id proposal_id' vpk vpk'
        posts first later s e =
      let a = vote-Accepted p rider secret path proposal_id vpk first in
      let refined = approve_post-eq-vote sha256 s account rider' secret path' proposal_id' vpk' in
      let (voted, again, _) =
        >>=-eq-ok (vote sha256 r rider' secret path' proposal_id' vpk')
          (vote_posts sha256 account rider') (sym refined ∙ e) in
      let b = vote-Accepted r rider' secret path' proposal_id' vpk' again in
      let same_id : proposal_id' ≡ proposal_id =
        b.id_matches
        ∙ Ballots-proposal_id later
        ∙ ap (λ (t : Proposal). t.proposal_id) a.result
        ∙ sym a.id_matches in
      let recorded : contains r.nullifiers (vote_nullifier sha256 secret proposal_id) ≡ true =
        Ballots-contains (vote_nullifier sha256 secret proposal_id) later (
          ap (λ (t : Proposal). contains t.nullifiers (vote_nullifier sha256 secret proposal_id))
            a.result
          ∙ contains-last p.nullifiers (vote_nullifier sha256 secret proposal_id)) in
      cc (recorded, b.is_new, same_id)
