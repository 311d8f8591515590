-- ===== src/Msig/Proposal/Abstract.antt =====
-- The abstract proposal: a frozen root, an id and the nullifiers of the votes cast so far; the data
-- bytes are its encoding.
use lp_0002_private_multisig.Prelude.{
  ◌+◌, ◌*◌, ◌≤◌, ◌≡◌, not, Bytes, bytes_eq, contains, List, [], ◌∷◌, ◌++◌, length, length-append,
  length-u32_to_le_bytes, u32_to_le_bytes, All, arith, Result, ok, ◌>>◌, ensure, leb,
}
use lp_0002_private_multisig.Core.Account.{
  AccountWithMetadata, default_account, account_eq, data_max_length,
}
use lp_0002_private_multisig.Msig.Scheme.{MerkleProof, root_from_path, member_leaf, vote_nullifier}
use lp_0002_private_multisig.Msig.Guest.{
  MsigPanic, proposal_id_mismatch, rider_not_keyed_by_secret, rider_not_live, not_a_member,
  double_vote, data_too_big, extend_all, expected_rider,
}
use lp_0002_private_multisig.Msig.Merkle.Soundness.{IsDigest}
use lp_0002_private_multisig.Msig.Layout.{length-extend_all}

pub record Proposal : Type 0 where
  pub member_root : Bytes
  pub proposal_id : Bytes
  pub nullifiers : List Bytes

abbrev pub header : Proposal → Bytes
header p = p.member_root ++ p.proposal_id ++ u32_to_le_bytes (length p.nullifiers)

-- member_root, proposal_id, approval_count, the nullifiers.
unfoldable pub encode : Proposal → Bytes
encode p =
    p.member_root
    ++ p.proposal_id
    ++ u32_to_le_bytes (length p.nullifiers)
    ++ extend_all p.nullifiers

-- The arrays have 32 bytes, and the encoding fits into an account's data.
pub record IsStored (p : Proposal) : Type 0 where
  pub root_len : IsDigest p.member_root
  pub id_len : IsDigest p.proposal_id
  pub entry_len : All IsDigest p.nullifiers
  pub fits : length (encode p) ≤ data_max_length

pub length-header : {p : Proposal} → IsStored p → length (header p) ≡ 68
length-header {p} s = omega (
  arith,
  length-append (p.member_root ++ p.proposal_id) (u32_to_le_bytes (length p.nullifiers)),
  length-append p.member_root p.proposal_id,
  length-u32_to_le_bytes (length p.nullifiers),
  s.root_len,
  s.id_len,
)

pub length-encode : {p : Proposal} → IsStored p → length (encode p) ≡ 68 + 32 * length p.nullifiers
unfolding encode
length-encode {p} s = omega (
  arith,
  length-append (header p) (extend_all p.nullifiers),
  length-header s,
  length-extend_all p.nullifiers s.entry_len,
)

-- The limit on an account's data bounds the count: at most 3197 votes are stored.
pub count_bound : {p : Proposal} → IsStored p → length p.nullifiers ≤ 3197
count_bound {p} s = omega (arith, length-encode s, s.fits)

module _ (sha256 : Bytes → Bytes) where
  -- An approval, on the abstract proposal.
  unfoldable pub vote :
      Proposal
      → AccountWithMetadata
      → Bytes
      → MerkleProof
      → Bytes
      → Bytes
      → Result MsigPanic Proposal
  vote p rider secret merkle_path proposal_id vpk = do
    ensure (bytes_eq proposal_id p.proposal_id) proposal_id_mismatch
    ensure (bytes_eq rider.account_id (expected_rider sha256 secret vpk)) rider_not_keyed_by_secret
    ensure (not (account_eq rider.account default_account)) rider_not_live
    ensure (bytes_eq (root_from_path sha256 (member_leaf sha256 secret) merkle_path) p.member_root)
        not_a_member
    let nullifier = vote_nullifier sha256 secret proposal_id
    ensure (not (contains p.nullifiers nullifier)) double_vote
    let voted : Proposal = record p { nullifiers = p.nullifiers ++ nullifier ∷ [] }
    ensure (leb (length (encode voted)) data_max_length) data_too_big
    ok voted
