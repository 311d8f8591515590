-- ===== src/Witnesses/Private.antt =====
-- A privacy preserving transaction of one signer, one public account and one private action, and the
-- deployment of a program after it.
use lp_0002_private_multisig.Prelude.{
  ◌≡◌, ◌≢◌, ◌↔◌, refl, Bytes, bytes_eq, contains, n_unique, none, some, [], ◌∷◌, replicate, ok,
  true,
}
use lp_0002_private_multisig.Prelude.HashMap
use lp_0002_private_multisig.Core.Account.{Account, default_account, public_account_nonce_increment}
use lp_0002_private_multisig.Core.Circuit.{PrivateAction}
use lp_0002_private_multisig.Core.Program.{is_valid_for}
use lp_0002_private_multisig.MerkleTree
use lp_0002_private_multisig.State.Types.{
  V03State, StateDiff, lookup_account, public_account_id, all_valid, signer_account_ids,
}
use lp_0002_private_multisig.State.Apply.{
  extend_set, insert_set, insert_program, write_accounts, increment_nonces, insert_commitments,
  extend_commitments, apply_state_diff,
}
use lp_0002_private_multisig.State.Checks.{check_nonces, input_pre_states}
use lp_0002_private_multisig.State.Private.{
  PrivacyHost, PrivacyPreservingTransaction, from_privacy_preserving_transaction,
  from_program_deployment_transaction, program_new, commitments, nullifiers, first_of,
  public_account_ids, zip_actions, contains_commitment, check_commitments_are_new,
  check_nullifiers_are_valid, collect_actions, check_proof,
}
use lp_0002_private_multisig.State.Private.Rules.{
  IsAcceptable, privacy_diff, from_privacy_preserving_transaction_iff,
}
use lp_0002_private_multisig.State.History.{History, start, transition, by_privacy, by_deployment}
use lp_0002_private_multisig.State.History.Spent.{no_double_spend}
use lp_0002_private_multisig.State.History.Programs.{Keeps, History-Keeps}
use lp_0002_private_multisig.Witnesses.Samples.{toy_hash, checksum, alice}
use lp_0002_private_multisig.Witnesses.Ledger.{
  toy_host, no_commitments, with_commitments, sender_id,
}

abbrev pub toy_privacy : PrivacyHost
toy_privacy = record {
  sha256 = toy_hash;
  message_hash = λ m. replicate 32 4;
  signature_is_valid = λ signature hash key. bytes_eq signature hash;
  proof_is_valid = λ proof output. bytes_eq proof (7 ∷ []);
  compute_image_id = λ elf. some (replicate 8 66);
}

abbrev known_digest : Bytes
known_digest = replicate 32 3

abbrev spent_note : Bytes
spent_note = replicate 32 8

abbrev new_note : Bytes
new_note = replicate 32 6

abbrev shielded : V03State
shielded = record {
  public_state = (sender_id, record default_account { balance = 100; nonce = 3 }) ∷ [];
  commitment_set = record no_commitments { root_history = known_digest ∷ [] };
  nullifier_set = replicate 32 200 ∷ [];
  programs = [];
}

abbrev action : PrivateAction
action = record {
  nullifier = spent_note;
  root = known_digest;
  commitment = new_note;
  encrypted_post_state = record { ciphertext = []; epk = []; view_tag = 1 };
}

abbrev withdrawn : Account
withdrawn = record default_account { balance = 40; nonce = 3 }

abbrev shield_60 : PrivacyPreservingTransaction
shield_60 = record {
  message = record {
    public_actions = record { account_id = sender_id; post_state = withdrawn } ∷ [];
    nonces = 3 ∷ [];
    private_actions = action ∷ [];
    block_validity_window = record { from = some 5; to = some 10 };
    timestamp_validity_window = record { from = none; to = none };
  };
  witness_set = record {
    signatures_and_public_keys = (replicate 32 4, alice) ∷ [];
    proof = 7 ∷ [];
  };
}

abbrev shield_diff : StateDiff
shield_diff = record {
  signer_account_ids = sender_id ∷ [];
  public_diff = (sender_id, withdrawn) ∷ [];
  new_commitments = new_note ∷ [];
  new_nullifiers = spent_note ∷ [];
  program = none;
}

abbrev shielded_after : V03State
shielded_after = record {
  public_state = (sender_id, record withdrawn { nonce = 4 }) ∷ [];
  commitment_set = with_commitments shielded.commitment_set (new_note ∷ []);
  nullifier_set = spent_note ∷ replicate 32 200 ∷ [];
  programs = [];
}

shield_60_validated :
    from_privacy_preserving_transaction toy_privacy shielded 7 100 shield_60 ≡ ok shield_diff
unfolding from_privacy_preserving_transaction n_unique public_account_ids contains nullifiers
    commitments all_valid bytes_eq check_nonces signer_account_ids lookup_account HashMap.get
    public_account_id toy_hash is_valid_for check_proof check_commitments_are_new
    contains_commitment HashMap.insert input_pre_states check_nullifiers_are_valid collect_actions
    zip_actions checksum
shield_60_validated = refl

shield_60_applied : apply_state_diff toy_hash shielded shield_diff ≡ some shielded_after
unfolding apply_state_diff write_accounts increment_nonces public_account_nonce_increment
    lookup_account HashMap.get HashMap.insert bytes_eq extend_set insert_set contains insert_program
    extend_commitments insert_commitments MerkleTree.insert MerkleTree.insert_with_room
shield_60_applied = refl

abbrev deploy_diff : StateDiff
deploy_diff = record {
  signer_account_ids = [];
  public_diff = [];
  new_commitments = [];
  new_nullifiers = [];
  program = some (record { id = replicate 8 66; elf = 127 ∷ [] });
}

abbrev deployed : V03State
deployed = record shielded_after {
  commitment_set = with_commitments shielded_after.commitment_set [];
  programs = (replicate 8 66, record { id = replicate 8 66; elf = 127 ∷ [] }) ∷ [];
}

deployment_validated :
    from_program_deployment_transaction toy_privacy shielded_after (127 ∷ []) ≡ ok deploy_diff
unfolding from_program_deployment_transaction program_new HashMap.get
deployment_validated = refl

deployment_applied : apply_state_diff toy_hash shielded_after deploy_diff ≡ some deployed
unfolding apply_state_diff write_accounts increment_nonces HashMap.insert extend_set insert_program
    extend_commitments insert_commitments MerkleTree.insert MerkleTree.insert_with_room
deployment_applied = refl

shielding-History : History toy_host toy_privacy shielded deployed
shielding-History =
    transition (transition start (by_privacy 7 100 shield_60 shield_60_validated) shield_60_applied)
      (by_deployment (127 ∷ []) deployment_validated) deployment_applied

later-History : History toy_host toy_privacy shielded_after deployed
later-History = transition start (by_deployment (127 ∷ []) deployment_validated) deployment_applied

spends : contains (first_of (nullifiers shield_60.message.private_actions)) spent_note ≡ true
unfolding nullifiers contains bytes_eq
spends = refl

from_privacy_preserving_transaction_iff_example :
    (from_privacy_preserving_transaction toy_privacy shielded 7 100 shield_60 ≡ ok shield_diff) ↔ (
      IsAcceptable toy_privacy shielded 7 100 shield_60
      × (shield_diff ≡ privacy_diff toy_privacy shielded 7 100 shield_60))
from_privacy_preserving_transaction_iff_example =
    from_privacy_preserving_transaction_iff toy_privacy shielded 7 100 shield_60 shield_diff

no_double_spend_example :
    from_privacy_preserving_transaction toy_privacy deployed 9 900 shield_60 ≢ ok shield_diff
no_double_spend_example =
    no_double_spend toy_host toy_privacy shielded deployed 7 100 9 900 shield_60 shield_60
      spent_note shield_60_validated shield_60_applied later-History spends spends

History-Keeps_example : Keeps shielded deployed
History-Keeps_example = History-Keeps toy_host toy_privacy shielding-History
