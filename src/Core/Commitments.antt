-- ===== src/Core/Commitments.antt =====
-- Commitments, nullifiers and private nonces: lee/state_machine/core/src/commitment.rs, nullifier.rs
-- and account.rs. SHA-256 is the zkVM's: a parameter.
use lp_0002_private_multisig.Prelude.{
  ℕ, ◌/◌, ◌%◌, ◌*◌, ◌+◌, List, [], ◌∷◌, ◌++◌, ◌==◌, if◌then◌else◌, Bytes, codes, replicate, take,
  to_le_bytes,
}
use lp_0002_private_multisig.Core.Account.{AccountId, Account}
use lp_0002_private_multisig.Core.Keys.{program_id_bytes}

abbrev pub Commitment : Type 0
Commitment = Bytes

abbrev pub Nullifier : Type 0
Nullifier = Bytes

abbrev pub CommitmentSetDigest : Type 0
CommitmentSetDigest = Bytes

abbrev pub MembershipProof : Type 0
MembershipProof = ℕ × List Bytes

-- `DUMMY_COMMITMENT`
abbrev pub dummy_commitment : Commitment
dummy_commitment =
    55 ∷ 228 ∷ 215 ∷ 207 ∷ 112 ∷ 221 ∷ 239 ∷ 49 ∷ 238 ∷ 79 ∷ 71 ∷ 135 ∷ 155 ∷ 15 ∷ 184 ∷ 45 ∷ 104
    ∷ 74 ∷ 51 ∷ 211 ∷ 238 ∷ 42 ∷ 160 ∷ 243 ∷ 15 ∷ 124 ∷ 253 ∷ 62 ∷ 3 ∷ 229 ∷ 90 ∷ 27 ∷ []

-- `u128::from_le_bytes`, at any length.
unfoldable pub from_le_bytes : Bytes → ℕ
from_le_bytes [] = 0
from_le_bytes (b ∷ bs) = b + 256 * from_le_bytes bs

module _ (sha256 : Bytes → Bytes) where
  -- `Commitment::new`
  unfoldable pub commitment_new : AccountId → Account → Commitment
  commitment_new account_id account = sha256 (
      (codes "/LEE/v0.3/Commitment/" ++ replicate 11 0)
      ++ account_id
      ++ program_id_bytes account.program_owner
      ++ to_le_bytes 16 account.balance
      ++ to_le_bytes 16 account.nonce
      ++ sha256 account.data_bytes)

  -- `Commitment::for_dummy`
  unfoldable pub commitment_for_dummy : Nullifier → Bytes → Commitment
  commitment_for_dummy nullifier commitment_seed =
      sha256
        ((codes "/LEE/v0.3/Commitment/Dummy/" ++ replicate 5 0) ++ nullifier ++ commitment_seed)

  -- The loop of `compute_digest_for_path`.
  unfoldable pub digest_along : Bytes → ℕ → List Bytes → CommitmentSetDigest
  digest_along result level_index [] = result
  digest_along result level_index (node ∷ path) =
      digest_along (sha256 (if level_index % 2 == 0 then result ++ node else node ++ result))
        (level_index / 2) path

  unfoldable pub compute_digest_for_path : Commitment → MembershipProof → CommitmentSetDigest
  unfolding digest_along
  compute_digest_for_path commitment proof = digest_along (sha256 commitment) proof.0 proof.1

  -- `Nullifier::for_account_update`
  unfoldable pub for_account_update : Commitment → Bytes → Nullifier
  for_account_update commitment nsk =
      sha256 ((codes "/LEE/v0.3/Nullifier/Update/" ++ replicate 5 0) ++ commitment ++ nsk)

  -- `Nullifier::for_account_initialization`
  unfoldable pub for_account_initialization : AccountId → Nullifier
  for_account_initialization account_id =
      sha256 ((codes "/LEE/v0.3/Nullifier/Initialize/" ++ 0 ∷ []) ++ account_id)

  -- `Nullifier::for_dummy`
  unfoldable pub nullifier_for_dummy : Bytes → Nullifier
  nullifier_for_dummy nullifier_seed =
      sha256 ((codes "/LEE/v0.3/Nullifier/Dummy/" ++ replicate 6 0) ++ nullifier_seed)

  -- `Nonce::private_account_nonce_init`
  unfoldable pub private_account_nonce_init : AccountId → ℕ
  private_account_nonce_init account_id =
      from_le_bytes (take 16 (sha256 (account_id ++ replicate 32 0)))

  -- `Nonce::private_account_nonce_increment`
  unfoldable pub private_account_nonce_increment : (nonce : ℕ) (nsk : Bytes) → ℕ
  private_account_nonce_increment nonce nsk =
      from_le_bytes (take 16 (sha256 (nsk ++ to_le_bytes 16 nonce ++ replicate 16 0)))
