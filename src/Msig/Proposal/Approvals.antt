-- ===== src/Msig/Proposal/Approvals.antt =====
-- Sequences of `approve` on the account of one proposal.

use lp_0002_private_multisig.Prelude.{
  ℕ, zero, suc, ◌+◌, ◌≡◌, refl, ap, sym, ◌∙◌, Bytes, List, ◌∷◌, length, arith, ok, >>=-eq-ok,
}
use lp_0002_private_multisig.Core.Account.{AccountWithMetadata}
use lp_0002_private_multisig.Core.Program.{AccountPostState}
use lp_0002_private_multisig.Msig.Scheme.{MerkleProof}
use lp_0002_private_multisig.Msig.Guest.{approve_post}
use lp_0002_private_multisig.Msig.Proposal.Abstract.{Proposal, vote}
use lp_0002_private_multisig.Msig.Proposal.Refinement.{stored, vote_posts, approve_post-eq-vote}
use lp_0002_private_multisig.Msig.Proposal.Votes.{
  Ballots, none_cast, cast, IsBallot, Ballots-IsBallot,
}

module _ (sha256 : Bytes → Bytes) where
  -- Approvals one after another, each on the account that the one before has returned for the proposal.
  pub data Approvals (account : AccountWithMetadata) : AccountWithMetadata → ℕ → Type 0 where
    untouched : Approvals account account zero
    approved :
        {now : AccountWithMetadata} {n : ℕ} {post : AccountPostState}
        {posts : List AccountPostState} (rider : AccountWithMetadata) (secret : Bytes)
        (path : MerkleProof) (proposal_id vpk : Bytes)
        → Approvals account now n
        → approve_post sha256 now rider secret path proposal_id vpk ≡ ok (post ∷ posts)
        → Approvals account (record now { account = post.account }) (suc n)

  -- An approval of a stored proposal stores a proposal with one vote more.
  stored-vote :
      (account rider : AccountWithMetadata) (r : Proposal) {post : AccountPostState}
      {posts : List AccountPostState}
      → vote_posts sha256 account rider r ≡ ok (post ∷ posts)
      → record (stored account r) { account = post.account } ≡ stored account r
  stored-vote account rider r h = ground (arith, h)

  module _ (digest_len : (b : Bytes) → length (sha256 b) ≡ 32) where
    Approvals-Ballots :
        {p : Proposal} (account : AccountWithMetadata) {now : AccountWithMetadata} {n : ℕ}
        → IsBallot sha256 digest_len p
        → Approvals (stored account p) now n
        → (q : Proposal) × (now ≡ stored account q) × Ballots sha256 p q n
    Approvals-Ballots {p} account b untouched = (p, refl, none_cast)
    Approvals-Ballots {p} account b
          (approved {now} {n} {post} {posts} rider secret path proposal_id vpk before h) =
        let (q, e, ballots) = Approvals-Ballots account b before in
        let (kept, _, _, _) = Ballots-IsBallot sha256 digest_len b ballots in
        let refined =
          approve_post-eq-vote sha256 kept.is_stored account rider secret path proposal_id vpk in
        let here : approve_post sha256 (stored account q) rider secret path proposal_id vpk
            ≡ ok (post ∷ posts) =
          ap (λ a. approve_post sha256 a rider secret path proposal_id vpk) (sym e) ∙ h in
        let (r, voted, written) =
          >>=-eq-ok (vote sha256 q rider secret path proposal_id vpk)
            (vote_posts sha256 account rider) (sym refined ∙ here) in
        (
          r,
          ap (λ (a : AccountWithMetadata). record a { account = post.account }) e
              ∙ stored-vote account rider r written,
          cast rider secret path proposal_id vpk ballots voted,
        )

    -- From an account that stores a proposal with distinct nullifiers, `n` successful calls of
    -- `approve`, each on the account that the one before has returned, leave an account that stores a
    -- proposal with the same root and id, with `n` nullifiers more, all of them distinct, and which
    -- still fits into the account's data. Digests have 32 bytes.
    pub Approvals-IsBallot :
        {p : Proposal} (account : AccountWithMetadata) {now : AccountWithMetadata} {n : ℕ}
        → IsBallot sha256 digest_len p
        → Approvals (stored account p) now n
        → (q : Proposal) × (now ≡ stored account q)
          × IsBallot sha256 digest_len q
          × (q.member_root ≡ p.member_root)
          × (q.proposal_id ≡ p.proposal_id)
          × (length q.nullifiers ≡ length p.nullifiers + n)
    Approvals-IsBallot account b approvals =
        let (q, e, ballots) = Approvals-Ballots account b approvals in
        let (kept, root, id, len) = Ballots-IsBallot sha256 digest_len b ballots in
        (q, e, kept, root, id, len)
