-- ===== src/Witnesses/Ledger.antt =====
-- A public transaction that moves 30 units, on a host that returns one journal.
use mathlib.Core.Path.{subst}
use lp_0002_private_multisig.Prelude.{
  ℕ, ◌≡◌, refl, Bytes, bytes_eq, contains, n_unique, none, some, List, [], ◌∷◌, replicate, ok,
  arith, true, false,
}
use lp_0002_private_multisig.Prelude.HashMap
use lp_0002_private_multisig.Prelude.HashMap.{HashMap}
use lp_0002_private_multisig.Core.Account.{
  Account, AccountWithMetadata, ProgramId, default_account, account_eq,
  public_account_nonce_increment,
}
use lp_0002_private_multisig.Core.Program.{
  ProgramOutput, new_post_state, new_output, is_valid_for, compute_public_authorized_pdas,
}
use lp_0002_private_multisig.Core.Balances.{from_balances}
use lp_0002_private_multisig.Core.Validation.{
  validate_execution, validate_total_balance, validate_account, validate_accounts,
  validate_uniqueness_of_account_ids,
}
use lp_0002_private_multisig.Core.Validation.Rules.{AreBalances}
use lp_0002_private_multisig.State.Types.{
  CommitmentSet, V03State, PublicTransaction, Host, StateDiff, lookup_account, public_account_id,
  all_valid, signer_account_ids,
}
use lp_0002_private_multisig.State.Apply.{
  extend_set, insert_program, write_accounts, increment_nonces, insert_commitments,
  extend_commitments, apply_state_diff,
}
use lp_0002_private_multisig.State.Public.{
  from_public_transaction, run_calls, process_call, check_output, check_claimed, check_declared,
}
use lp_0002_private_multisig.State.Checks.{
  authenticate_public_transaction_signers, check_pre_states, apply_claims, apply_claim,
  authorized_ids, check_nonces, input_pre_states, update_diff, with_caller,
}
use lp_0002_private_multisig.State.Public.Round.{DecodesBalances, ok-inj}
use lp_0002_private_multisig.State.Public.Conservation.{total_balance-public_transaction}
use lp_0002_private_multisig.State.Public.Replay.{replay_rejected}
use lp_0002_private_multisig.State.Types.{InvalidInput, invalid_input}
use lp_0002_private_multisig.Prelude.{err}
use lp_0002_private_multisig.State.Totals.{total_balance}
use lp_0002_private_multisig.Witnesses.Samples.{toy_hash, checksum, alice}

abbrev pub transfer_program : ProgramId
transfer_program = replicate 8 4

abbrev pub owned : (balance nonce : ℕ) → Account
owned balance nonce = record default_account {
  program_owner = transfer_program;
  balance = balance;
  nonce = nonce;
}

abbrev pub sender_id : Bytes
sender_id = replicate 32 71

abbrev pub recipient_id : Bytes
recipient_id = replicate 32 11

abbrev pub sender : AccountWithMetadata
sender = record { account = owned 1000 3; is_authorized = true; account_id = sender_id }

abbrev pub recipient : AccountWithMetadata
recipient = record { account = owned 5 0; is_authorized = false; account_id = recipient_id }

abbrev pub journal : ProgramOutput
journal =
    new_output transfer_program none [] (sender ∷ recipient ∷ [])
      (new_post_state (owned 970 3) ∷ new_post_state (owned 35 0) ∷ [])

abbrev pub toy_host : Host
toy_host = record {
  sha256 = toy_hash;
  execute = λ program caller pres words. ok journal;
  message_hash = λ m. m.program_id;
  signature_is_valid = λ signature hash key. bytes_eq signature hash;
}

pub journal-AreBalances : AreBalances journal.pre_states journal.post_states
journal-AreBalances = record {
  pre_u128 = (omega arith, (omega arith, tt));
  post_u128 = (omega arith, (omega arith, tt));
  pre_count = omega arith;
  post_count = omega arith;
}

pub toy_host-DecodesBalances : DecodesBalances toy_host
toy_host-DecodesBalances = record {
  decoded = λ program caller pres words {output} h.
      subst (λ (o : ProgramOutput). AreBalances o.pre_states o.post_states) (ok-inj h)
        journal-AreBalances;
}

abbrev pub no_commitments : CommitmentSet
no_commitments = record {
  merkle_tree = record { nodes = replicate 32 0 ∷ []; capacity = 1; length = 0 };
  commitments = [];
  root_history = [];
}

-- The set with some commitments more.
abbrev pub with_commitments : CommitmentSet → List Bytes → CommitmentSet
with_commitments set cs = elim (extend_commitments toy_hash set cs) [
  | none ↦ set
  | some extended ↦ extended
]

abbrev pub before : V03State
before = record {
  public_state = (sender_id, owned 1000 3) ∷ (recipient_id, owned 5 0) ∷ [];
  commitment_set = no_commitments;
  nullifier_set = [];
  programs = (transfer_program, record { id = transfer_program; elf = [] }) ∷ [];
}

abbrev pub after : V03State
after = record before {
  public_state = (sender_id, owned 970 4) ∷ (recipient_id, owned 35 0) ∷ [];
  commitment_set = with_commitments no_commitments [];
}

abbrev pub transfer_30 : PublicTransaction
transfer_30 = record {
  message = record {
    program_id = transfer_program;
    account_ids = sender_id ∷ recipient_id ∷ [];
    nonces = 3 ∷ [];
    instruction_data = 0 ∷ 30 ∷ [];
  };
  witness_set = record { signatures_and_public_keys = (transfer_program, alice) ∷ [] };
}

abbrev pub moved : StateDiff
moved = record {
  signer_account_ids = sender_id ∷ [];
  public_diff = (sender_id, owned 970 3) ∷ (recipient_id, owned 35 0) ∷ [];
  new_commitments = [];
  new_nullifiers = [];
  program = none;
}

pub transfer_30_validated : from_public_transaction toy_host before 7 100 transfer_30 ≡ ok moved
unfolding from_public_transaction authenticate_public_transaction_signers all_valid bytes_eq
    signer_account_ids lookup_account HashMap.get public_account_id toy_hash n_unique contains
    run_calls process_call check_output check_pre_states account_eq compute_public_authorized_pdas
    validate_execution from_balances is_valid_for HashMap.insert validate_total_balance
    validate_account validate_accounts validate_uniqueness_of_account_ids apply_claims apply_claim
    authorized_ids check_claimed check_declared check_nonces input_pre_states update_diff
    with_caller checksum
transfer_30_validated = refl

pub transfer_30_applied : apply_state_diff toy_hash before moved ≡ some after
unfolding apply_state_diff write_accounts increment_nonces public_account_nonce_increment
    lookup_account HashMap.get HashMap.insert bytes_eq extend_set insert_program extend_commitments
    insert_commitments
transfer_30_applied = refl

total_balance-public_transaction_example :
    total_balance after.public_state ≡ total_balance before.public_state
total_balance-public_transaction_example =
    total_balance-public_transaction toy_host before 7 100 transfer_30 toy_host-DecodesBalances
      transfer_30_validated transfer_30_applied

replay_rejected_example :
    from_public_transaction toy_host after 8 200 transfer_30
    ≡ err (invalid_input InvalidInput.nonce_mismatch)
replay_rejected_example =
    replay_rejected toy_host transfer_30 before 7 100 8 200 (transfer_program, alice) []
      toy_host-DecodesBalances refl transfer_30_validated transfer_30_applied
