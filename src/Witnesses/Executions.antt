-- ===== src/Witnesses/Executions.antt =====
-- Executions that the privacy preserving circuit proves: the transfer of the ledger's journal from a
-- public account to a private one.
use mathlib.Core.List.{Perm, map}
use lp_0002_private_multisig.Prelude.{
  ℕ, ◌≡◌, ◌↔◌, refl, bytes_eq, none, some, List, [], ◌∷◌, replicate, ok, true, All, n_unique,
  contains,
}
use lp_0002_private_multisig.Prelude.HashMap
use lp_0002_private_multisig.Core.Account.{account_eq}
use lp_0002_private_multisig.Core.Balances.{sum, from_balances, add_balance, add_balances}
use lp_0002_private_multisig.Core.Circuit.{
  PrivateAction, InputAccountIdentity, private_authorized_init, npk_vpk_if_private_pda,
  is_private_pda,
}
use lp_0002_private_multisig.Core.Program.{ValidityWindow, is_valid_for, check_window, try_window}
use lp_0002_private_multisig.Core.Validation.{
  pre_balances, validate_execution, validate_uniqueness_of_account_ids, validate_accounts,
  validate_account, validate_total_balance,
}
use lp_0002_private_multisig.State.Totals.{total_balance}
use lp_0002_private_multisig.Circuit.Types.{ExecutionState, CircuitHost, get_position}
use lp_0002_private_multisig.Circuit.Execution.{
  intersect_windows, derive_from_outputs, latest, earliest, run_outputs, process_output,
  check_all_claimed, check_bound, keys_by_position, calls_of,
}
use lp_0002_private_multisig.Circuit.Sync.{
  validate_and_sync_states, sync_one, first_seen, external_seed, bind_external, sync_claim,
}
use lp_0002_private_multisig.Circuit.Execution.Windows.{intersect_windows-is_valid_for}
use lp_0002_private_multisig.Circuit.Execution.Conservation.{derive_from_outputs-IsBalanced}
use lp_0002_private_multisig.Circuit.Obfuscation.{
  obfuscate_output_ordering, nullifier_of, commitment_of,
}
use lp_0002_private_multisig.Circuit.Obfuscation.Sorted.{
  IsSorted, note_of, obfuscate_output_ordering_lem,
}
use lp_0002_private_multisig.Witnesses.Samples.{toy_hash}
use lp_0002_private_multisig.Witnesses.Ledger.{
  transfer_program, owned, sender_id, recipient_id, sender, recipient, journal, journal-AreBalances,
}

abbrev pub toy_circuit : CircuitHost
toy_circuit = record {
  sha256 = toy_hash;
  verify = λ program_id output. true;
  encapsulate_deterministic = λ vpk esk. (vpk, esk);
  apply_keystream = λ key buffer. buffer;
}

abbrev one_private : List InputAccountIdentity
one_private =
    InputAccountIdentity.public
    ∷ private_authorized_init (replicate 32 1) (replicate 32 2) (replicate 32 3) 0 (replicate 32 4)
    ∷ []

abbrev executed : ExecutionState
executed = record {
  pre_states = sender ∷ recipient ∷ [];
  post_states = (sender_id, owned 970 3) ∷ (recipient_id, owned 35 0) ∷ [];
  block_validity_window = record { from = none; to = none };
  timestamp_validity_window = record { from = none; to = none };
  private_pda_bound_positions = [];
  pda_family_binding = [];
  private_pda_by_position = [];
  authorized_accounts = [];
}

transfer_executed :
    derive_from_outputs toy_circuit one_private transfer_program (journal ∷ []) ≡ ok executed
unfolding derive_from_outputs intersect_windows try_window check_window latest earliest run_outputs
    process_output bytes_eq validate_execution validate_uniqueness_of_account_ids n_unique contains
    validate_accounts validate_account validate_total_balance from_balances validate_and_sync_states
    sync_one HashMap.get HashMap.insert check_all_claimed check_bound keys_by_position calls_of
    first_seen external_seed bind_external sync_claim is_private_pda npk_vpk_if_private_pda
    account_eq get_position add_balance add_balances
transfer_executed = refl

derive_from_outputs-IsBalanced_example :
    sum (pre_balances executed.pre_states) ≡ total_balance executed.post_states
derive_from_outputs-IsBalanced_example =
    derive_from_outputs-IsBalanced toy_circuit one_private transfer_program (journal ∷ [])
      (journal-AreBalances, tt) transfer_executed

abbrev windows : List ValidityWindow
windows = record { from = some 3; to = none } ∷ record { from = some 5; to = some 9 } ∷ []

windows_intersected : intersect_windows windows ≡ ok (record { from = some 5; to = some 9 })
unfolding intersect_windows latest earliest try_window check_window
windows_intersected = refl

intersect_windows-is_valid_for_example :
    (is_valid_for (record { from = some 5; to = some 9 }) 6 ≡ true)
    ↔ All (λ v. is_valid_for v 6 ≡ true) windows
intersect_windows-is_valid_for_example =
    intersect_windows-is_valid_for windows 6 windows_intersected

abbrev action_of : (tag mark : ℕ) → PrivateAction
action_of tag mark = record {
  nullifier = replicate 32 tag;
  root = replicate 32 1;
  commitment = replicate 32 mark;
  encrypted_post_state = record { ciphertext = tag ∷ []; epk = []; view_tag = tag };
}

abbrev three_actions : List PrivateAction
three_actions = action_of 9 2 ∷ action_of 3 8 ∷ action_of 5 1 ∷ []

obfuscate_output_ordering_lem_example :
    IsSorted (map nullifier_of (obfuscate_output_ordering three_actions))
    × IsSorted (map commitment_of (obfuscate_output_ordering three_actions))
    × Perm
        (map commitment_of (obfuscate_output_ordering three_actions))
        (map commitment_of three_actions)
    × Perm (map note_of (obfuscate_output_ordering three_actions)) (map note_of three_actions)
obfuscate_output_ordering_lem_example = obfuscate_output_ordering_lem three_actions
