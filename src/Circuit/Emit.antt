-- ===== src/Circuit/Emit.antt =====
-- What the circuit emits for one private account or one dummy: lee/privacy_preserving_circuit/src/output.rs.
use lp_0002_private_multisig.Prelude.{ℕ, List, [], ◌∷◌, ◌++◌, Bytes}
use lp_0002_private_multisig.Core.Account.{AccountId, Account}
use lp_0002_private_multisig.Core.Circuit.{DummyInput, PrivateAction, PrivateAccountKind}
use lp_0002_private_multisig.Core.Commitments.{
  Nullifier, CommitmentSetDigest, MembershipProof, commitment_new, commitment_for_dummy,
  compute_digest_for_path, for_account_update, nullifier_for_dummy,
}
use lp_0002_private_multisig.Core.Encryption.{ephemeral_secret_key, encrypt}
use lp_0002_private_multisig.Circuit.Types.{CircuitHost}

module _ (host : CircuitHost) where
  unfoldable pub emit_dummy_output : List PrivateAction → DummyInput → List PrivateAction
  emit_dummy_output actions dummy =
      let nullifier = nullifier_for_dummy host.sha256 dummy.nullifier_seed in
      actions
      ++ record {
        nullifier = nullifier;
        root = dummy.commitment_root;
        commitment = commitment_for_dummy host.sha256 nullifier dummy.commitment_seed;
        encrypted_post_state = dummy.note;
      }
        ∷ []

  unfoldable pub emit_dummy_outputs : List PrivateAction → List DummyInput → List PrivateAction
  emit_dummy_outputs actions [] = actions
  emit_dummy_outputs actions (dummy ∷ dummies) =
      emit_dummy_outputs (emit_dummy_output actions dummy) dummies

  unfoldable pub emit_private_output :
      List PrivateAction
      → Account
      → AccountId
      → PrivateAccountKind
      → (view_tag : ℕ) (vpk random_seed : Bytes) → Nullifier × CommitmentSetDigest
      → (new_nonce : ℕ) → List PrivateAction
  emit_private_output actions post_state account_id kind view_tag vpk random_seed new_nullifier
        new_nonce =
      let post = record post_state { nonce = new_nonce } in
      let esk = ephemeral_secret_key host.sha256 account_id random_seed new_nonce in
      let (shared_secret, epk) = host.encapsulate_deterministic vpk esk in
      actions
      ++ record {
        nullifier = new_nullifier.0;
        root = new_nullifier.1;
        commitment = commitment_new host.sha256 account_id post;
        encrypted_post_state = record {
          ciphertext =
              encrypt host.sha256 host.apply_keystream post kind shared_secret new_nullifier.0;
          epk = epk;
          view_tag = view_tag;
        };
      }
        ∷ []

  unfoldable pub compute_update_nullifier_and_set_digest :
      MembershipProof → Account → AccountId → (nsk : Bytes) → Nullifier × CommitmentSetDigest
  compute_update_nullifier_and_set_digest membership_proof pre_account account_id nsk =
      let commitment_pre = commitment_new host.sha256 account_id pre_account in
      (
        for_account_update host.sha256 commitment_pre nsk,
        compute_digest_for_path host.sha256 commitment_pre membership_proof,
      )
