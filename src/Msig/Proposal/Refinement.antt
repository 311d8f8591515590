-- ===== src/Msig/Proposal/Refinement.antt =====
-- The guest's `approve` on an encoded proposal is the abstract vote.
use mathlib.Core.List.{append_assoc}
use lp_0002_private_multisig.Prelude.{
  ◌+◌, ◌%◌, ◌≡◌, refl, ap, ◌∙◌, Bytes, List, [], ◌∷◌, ◌++◌, length, length-append, take, drop,
  take-append_length, drop-append_length, u32_to_le_bytes, u32_mod, arith, Result, ok, ◌>>=◌, some,
  true, leb,
}
use lp_0002_private_multisig.Core.Account.{AccountWithMetadata, try_into_data}
use lp_0002_private_multisig.Core.Program.{AccountPostState, new_post_state}
use lp_0002_private_multisig.Msig.Scheme.{MerkleProof, proposal_header_len, vote_nullifier}
use lp_0002_private_multisig.Msig.Guest.{
  MsigPanic, extend_all, read_entries, state_member_root, state_proposal_id, state_approval_count,
  approve_post,
}
use lp_0002_private_multisig.Msig.Layout.{read_entries-extend_all, u32_at}
use lp_0002_private_multisig.Msig.Proposal.Abstract.{
  Proposal, header, encode, IsStored, length-header, length-encode, count_bound, vote,
}

module _ {p : Proposal} (s : IsStored p) where
  -- The encoding, bracketed to the right.
  encode_right :
      encode p
      ≡ p.member_root
        ++ (p.proposal_id ++ (u32_to_le_bytes (length p.nullifiers) ++ extend_all p.nullifiers))
  unfolding encode
  encode_right = simp append_assoc

  root-encode : state_member_root (encode p) ≡ p.member_root
  root-encode =
      let tail = u32_to_le_bytes (length p.nullifiers) ++ extend_all p.nullifiers in
      ap (λ (b : Bytes). take 32 b) encode_right
      ∙ take-append_length 32 p.member_root (p.proposal_id ++ tail) s.root_len

  id-encode : state_proposal_id (encode p) ≡ p.proposal_id
  id-encode =
      let tail = u32_to_le_bytes (length p.nullifiers) ++ extend_all p.nullifiers in
      ap (λ (b : Bytes). take 32 (drop 32 b)) encode_right
      ∙ ap (λ (b : Bytes). take 32 b)
          (drop-append_length 32 p.member_root (p.proposal_id ++ tail) s.root_len)
      ∙ take-append_length 32 p.proposal_id tail s.id_len

  pub count-encode : state_approval_count (encode p) ≡ length p.nullifiers
  unfolding encode
  count-encode =
      u32_at 64 (p.member_root ++ p.proposal_id) (extend_all p.nullifiers) (length p.nullifiers)
        (omega (arith, length-append p.member_root p.proposal_id, s.root_len, s.id_len))
        (omega (arith, count_bound s))

  entries-encode :
      read_entries (length p.nullifiers) proposal_header_len (encode p) ≡ some p.nullifiers
  unfolding encode
  entries-encode = read_entries-extend_all (header p) 68 p.nullifiers (length-header s) s.entry_len

  pub header-encode : leb proposal_header_len (length (encode p)) ≡ true
  header-encode = ground (arith, length-encode s)

  count_after : (n : Bytes) → (length p.nullifiers + 1) % u32_mod ≡ length (p.nullifiers ++ n ∷ [])
  count_after n = omega (arith, count_bound s, length-append p.nullifiers (n ∷ []))

  voted_bytes :
      (n : Bytes)
      → p.member_root
          ++ p.proposal_id
          ++ u32_to_le_bytes ((length p.nullifiers + 1) % u32_mod)
          ++ extend_all (p.nullifiers ++ n ∷ [])
        ≡ encode (record p { nullifiers = p.nullifiers ++ n ∷ [] })
  unfolding encode
  voted_bytes n = rw (count_after n) refl

-- The account `a` with the encoding of `p` as its data.
abbrev pub stored : AccountWithMetadata → Proposal → AccountWithMetadata
stored a p = record a { account = record a.account { data_bytes = encode p } }

module _ (sha256 : Bytes → Bytes) where
  -- The account and the rider that an accepted vote leaves.
  abbrev pub vote_posts :
      AccountWithMetadata
      → AccountWithMetadata
      → Proposal
      → Result MsigPanic (List AccountPostState)
  vote_posts account rider voted =
      ok (new_post_state (stored account voted).account ∷ new_post_state rider.account ∷ [])

  -- On every branch `approve` on an account that stores `p` does what the abstract vote on `p` does:
  -- it panics with the same message, or returns the account that stores the proposal with the vote's
  -- nullifier appended, and the rider unchanged.
  pub approve_post-eq-vote :
      {p : Proposal} (s : IsStored p) (account rider : AccountWithMetadata) (secret : Bytes)
      (merkle_path : MerkleProof) (proposal_id vpk : Bytes)
      → approve_post sha256 (stored account p) rider secret merkle_path proposal_id vpk
        ≡ (vote sha256 p rider secret merkle_path proposal_id vpk >>= vote_posts account rider)
  unfolding approve_post vote try_into_data
  approve_post-eq-vote {p} s account rider secret merkle_path proposal_id vpk =
      rw (root-encode s, id-encode s, count-encode s, entries-encode s, header-encode s)
        (ground (arith, voted_bytes s (vote_nullifier sha256 secret proposal_id)))
