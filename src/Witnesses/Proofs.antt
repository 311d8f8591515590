-- ===== src/Witnesses/Proofs.antt =====
-- A run of the whole circuit: a private account pays a public one, beside one dummy.
use mathlib.Core.List.{map}
use lp_0002_private_multisig.Prelude.{
  ◌≡◌, refl, ◌+◌, Bytes, bytes_eq, true, none, [], ◌∷◌, replicate, ok, length, n_unique, contains,
  to_le_bytes,
}
use lp_0002_private_multisig.Prelude.HashMap
use lp_0002_private_multisig.Core.Account.{AccountWithMetadata, account_eq}
use lp_0002_private_multisig.Core.Balances.{from_balances, add_balance, add_balances}
use lp_0002_private_multisig.Core.Circuit.{
  InputAccountIdentity, private_authorized_update, CircuitInput, CircuitOutput, DummyInput, regular,
  is_private_pda, npk_vpk_if_private_pda,
}
use lp_0002_private_multisig.Core.Commitments.{private_account_nonce_increment}
use lp_0002_private_multisig.Core.Keys.{nullifier_public_key, for_regular_private_account}
use lp_0002_private_multisig.Core.Program.{
  ProgramOutput, new_output, new_post_state, check_window, try_window,
}
use lp_0002_private_multisig.Core.Validation.{
  validate_execution, validate_uniqueness_of_account_ids, validate_accounts, validate_account,
  validate_total_balance,
}
use lp_0002_private_multisig.Circuit.Types.{get_position}
use lp_0002_private_multisig.Circuit.Sync.{
  validate_and_sync_states, sync_one, first_seen, external_seed, bind_external, sync_claim,
}
use lp_0002_private_multisig.Circuit.Execution.{
  intersect_windows, derive_from_outputs, latest, earliest, run_outputs, process_output,
  check_all_claimed, check_bound, keys_by_position, calls_of,
}
use lp_0002_private_multisig.Circuit.Emit.{
  emit_private_output, emit_dummy_outputs, compute_update_nullifier_and_set_digest,
}
use lp_0002_private_multisig.Circuit.Obfuscation.{
  obfuscate_output_ordering, nullifier_of, commitment_of,
}
use lp_0002_private_multisig.Circuit.Obfuscation.Sorted.{IsSorted}
use lp_0002_private_multisig.Circuit.Output.{
  remove, emit_account, emit_accounts, compute_circuit_output, circuit_main,
}
use lp_0002_private_multisig.Circuit.Output.Counts.{
  count_public, count_private, circuit_main-counts,
}
use lp_0002_private_multisig.Witnesses.Samples.{toy_hash, checksum}
use lp_0002_private_multisig.Witnesses.Ledger.{transfer_program, owned, recipient}
use lp_0002_private_multisig.Witnesses.Executions.{toy_circuit}

abbrev nsk : Bytes
nsk = replicate 32 3

abbrev payer_key : Bytes
payer_key = replicate 32 1

abbrev payer_id : Bytes
payer_id = for_regular_private_account toy_hash (nullifier_public_key toy_hash nsk) payer_key 0

abbrev payer : AccountWithMetadata
payer = record { account = owned 1000 3; is_authorized = true; account_id = payer_id }

abbrev payment : ProgramOutput
payment =
    new_output transfer_program none [] (payer ∷ recipient ∷ [])
      (new_post_state (owned 970 3) ∷ new_post_state (owned 35 0) ∷ [])

abbrev dummy : DummyInput
dummy = record {
  nullifier_seed = replicate 32 1;
  commitment_seed = replicate 32 2;
  note = record { ciphertext = 4 ∷ []; epk = 5 ∷ []; view_tag = 6 };
  commitment_root = replicate 32 3;
}

abbrev input : CircuitInput
input = record {
  program_outputs = payment ∷ [];
  account_identities =
      private_authorized_update payer_key (replicate 32 2) 7 nsk (0, []) 0
      ∷ InputAccountIdentity.public
      ∷ [];
  program_id = transfer_program;
  dummy_inputs = dummy ∷ [];
}

abbrev output : CircuitOutput
output = record {
  public_actions = record { pre = recipient; post = owned 35 0 } ∷ [];
  private_actions = obfuscate_output_ordering (
      emit_dummy_outputs toy_circuit
        (emit_private_output toy_circuit [] (owned 970 3) payer_id (regular 0) 7 payer_key
          (replicate 32 2)
          (compute_update_nullifier_and_set_digest toy_circuit (0, []) payer.account payer_id nsk)
          (private_account_nonce_increment toy_hash 3 nsk))
        (dummy ∷ []));
  block_validity_window = record { from = none; to = none };
  timestamp_validity_window = record { from = none; to = none };
}

payment_proved : circuit_main toy_circuit input ≡ ok output
unfolding circuit_main derive_from_outputs intersect_windows try_window check_window latest earliest
    run_outputs process_output bytes_eq validate_execution validate_uniqueness_of_account_ids
    n_unique contains validate_accounts validate_account validate_total_balance from_balances
    validate_and_sync_states sync_one HashMap.get HashMap.insert check_all_claimed check_bound
    keys_by_position calls_of first_seen external_seed bind_external sync_claim is_private_pda
    npk_vpk_if_private_pda account_eq get_position add_balance add_balances compute_circuit_output
    emit_accounts emit_account remove nullifier_public_key for_regular_private_account toy_hash
    checksum to_le_bytes
payment_proved = refl

circuit_main-counts_example :
    (length output.public_actions ≡ count_public input.account_identities)
    × (length output.private_actions
        ≡ count_private input.account_identities + length input.dummy_inputs)
    × IsSorted (map nullifier_of output.private_actions)
    × IsSorted (map commitment_of output.private_actions)
circuit_main-counts_example = circuit_main-counts toy_circuit input payment_proved
