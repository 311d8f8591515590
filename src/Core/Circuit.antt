-- ===== src/Core/Circuit.antt =====
-- What the privacy preserving circuit takes and commits: lee/state_machine/core/src/circuit_io.rs,
-- and the encrypted notes of core/src/encryption/mod.rs.
use lp_0002_private_multisig.Prelude.{
  ℕ, ◌++◌, Bool, true, false, Option, none, some, List, [], ◌∷◌, Bytes, codes,
}
use lp_0002_private_multisig.Core.Account.{ProgramId, Account, AccountWithMetadata}
use lp_0002_private_multisig.Core.Commitments.{
  Commitment, Nullifier, CommitmentSetDigest, MembershipProof,
}
use lp_0002_private_multisig.Core.Keys.{nullifier_public_key}
use lp_0002_private_multisig.Core.Program.{ProgramOutput, ValidityWindow}

-- `Option<(PdaSeed, ProgramId)>`
abbrev pub ExternalSeed : Type 0
ExternalSeed = Option (Bytes × ProgramId)

pub data InputAccountIdentity : Type 0 where
  public : InputAccountIdentity
  private_authorized_init :
      (vpk random_seed nsk : Bytes) (identifier : ℕ) (commitment_root : CommitmentSetDigest)
      → InputAccountIdentity
  private_authorized_update :
      (vpk random_seed : Bytes) (view_tag : ℕ) (nsk : Bytes) (membership_proof : MembershipProof)
      (identifier : ℕ)
      → InputAccountIdentity
  private_foreign_init :
      (vpk random_seed npk : Bytes) (identifier : ℕ) (commitment_root : CommitmentSetDigest)
      → InputAccountIdentity
  private_pda_init :
      (vpk random_seed npk : Bytes) (identifier : ℕ) (commitment_root : CommitmentSetDigest)
      (seed : ExternalSeed)
      → InputAccountIdentity
  private_pda_update :
      (vpk random_seed : Bytes) (view_tag : ℕ) (nsk : Bytes) (membership_proof : MembershipProof)
      (identifier : ℕ) (seed : ExternalSeed)
      → InputAccountIdentity

pub record EncryptedAccountData : Type 0 where
  pub ciphertext : Bytes
  pub epk : Bytes
  pub view_tag : ℕ

pub record DummyInput : Type 0 where
  pub nullifier_seed : Bytes
  pub commitment_seed : Bytes
  pub note : EncryptedAccountData
  pub commitment_root : CommitmentSetDigest

pub record PrivateAction : Type 0 where
  pub nullifier : Nullifier
  pub root : CommitmentSetDigest
  pub commitment : Commitment
  pub encrypted_post_state : EncryptedAccountData

pub record PublicAction : Type 0 where
  pub pre : AccountWithMetadata
  pub post : Account

pub record CircuitOutput : Type 0 where
  pub public_actions : List PublicAction
  pub private_actions : List PrivateAction
  pub block_validity_window : ValidityWindow
  pub timestamp_validity_window : ValidityWindow

pub record CircuitInput : Type 0 where
  pub program_outputs : List ProgramOutput
  pub account_identities : List InputAccountIdentity
  pub program_id : ProgramId
  pub dummy_inputs : List DummyInput

unfoldable pub is_public : InputAccountIdentity → Bool
is_public public = true
is_public _ = false

unfoldable pub is_private_pda : InputAccountIdentity → Bool
is_private_pda (private_pda_init _ _ _ _ _ _) = true
is_private_pda (private_pda_update _ _ _ _ _ _ _) = true
is_private_pda _ = false

-- The npk, the vpk and the identifier of a private PDA.
abbrev pub PdaKeys : Type 0
PdaKeys = Bytes × Bytes × ℕ

unfoldable pub npk_vpk_if_private_pda : (Bytes → Bytes) → InputAccountIdentity → Option PdaKeys
npk_vpk_if_private_pda sha256 (private_pda_init vpk _ npk identifier _ _) =
    some (npk, vpk, identifier)
npk_vpk_if_private_pda sha256 (private_pda_update vpk _ _ nsk _ identifier _) =
    some (nullifier_public_key sha256 nsk, vpk, identifier)
npk_vpk_if_private_pda sha256 _ = none

-- The first byte of a digest; a digest has 32, so that the index is in range.
abbrev first_byte : Bytes → ℕ
first_byte [] = 0
first_byte (b ∷ bs) = b

-- `EncryptedAccountData::compute_view_tag`
unfoldable pub compute_view_tag : (Bytes → Bytes) → (npk vpk : Bytes) → ℕ
compute_view_tag sha256 npk vpk = first_byte (sha256 (codes "/LEE/v0.3/ViewTag/" ++ npk ++ vpk))

-- `PrivateAccountKind`
pub data PrivateAccountKind : Type 0 where
  regular : (identifier : ℕ) → PrivateAccountKind
  pda_kind : (program_id : ProgramId) (seed : Bytes) (identifier : ℕ) → PrivateAccountKind
