-- ===== src/Witnesses/Zones.antt =====
-- A zone with a clock: its genesis block is adopted, and then finalized.
use lp_0002_private_multisig.Prelude.{
  ◌≡◌, refl, Bytes, bytes_eq, contains, n_unique, none, some, [], ◌∷◌, replicate, map, ok, arith,
  u32_to_le_bytes,
}
use lp_0002_private_multisig.Prelude.HashMap
use lp_0002_private_multisig.Core.Account.{
  Account, AccountWithMetadata, ProgramId, default_account, account_eq,
  public_account_nonce_increment,
}
use lp_0002_private_multisig.Core.Keys.{for_public_pda, program_id_bytes}
use lp_0002_private_multisig.Core.Program.{
  new_post_state, new_output, is_valid_for, compute_public_authorized_pdas,
}
use lp_0002_private_multisig.Core.Balances.{from_balances}
use lp_0002_private_multisig.Core.Validation.{
  validate_execution, validate_total_balance, validate_account, validate_accounts,
  validate_uniqueness_of_account_ids,
}
use lp_0002_private_multisig.State.Types.{
  V03State, Host, lookup_account, public_account_id, all_valid, signer_account_ids,
}
use lp_0002_private_multisig.State.Apply.{
  extend_set, insert_program, write_accounts, increment_nonces, insert_commitments,
  extend_commitments, apply_state_diff,
}
use lp_0002_private_multisig.State.Public.{
  from_public_transaction, run_calls, process_call, check_output, check_claimed, check_declared,
}
use lp_0002_private_multisig.State.Checks.{
  authenticate_public_transaction_signers, check_pre_states, apply_claims, apply_claim,
  authorized_ids, check_nonces, input_pre_states, update_diff, with_caller,
}
use lp_0002_private_multisig.Chain.Types.{
  ChainHost, Block, tip_of, public_transaction, clock_account_ids, clock_invocation, compute_hash,
  recompute_hash, into_pending_block, faucet_account_id, bridge_account_id,
}
use lp_0002_private_multisig.Chain.Transactions.{
  execute_on_state, apply_or_panic, compute_state_diff, execute_check_on_state, validate_on_state,
  validate_restricted, validate_doesnt_modify_account, validate_bridge_account_modification,
  restricted_account_ids,
}
use lp_0002_private_multisig.Chain.Transactions.Guards.{Guarded, execute_check_on_state-Guarded}
use lp_0002_private_multisig.Chain.Blocks.{
  apply_block, apply_block_to_state, validate_against_tip, apply_transactions, check_clock,
  public_transaction_eq, all_eq, split_last,
}
use lp_0002_private_multisig.Chain.Tiers.{
  applied, ChainState, HeadEntry, from_final, head_position_of, position, last_tip, replay,
}
use lp_0002_private_multisig.Chain.Finality.{apply_finalized, finalize_through}
use lp_0002_private_multisig.Chain.Consistency.{IsConsistent}
use lp_0002_private_multisig.Chain.Finalization.{Finalized, apply_finalized-Finalized}
use lp_0002_private_multisig.Chain.Adoption.{Settled, apply_adopted-Settled}
use lp_0002_private_multisig.Chain.Irreversible.{Extends, Events-Extends}
use lp_0002_private_multisig.Chain.Events.{
  Events, start, next, adopted, finalized, run_event, IsSound, Events-IsSound,
}
use lp_0002_private_multisig.Chain.Head.{apply_adopted, adopt, extend_head}
use lp_0002_private_multisig.Witnesses.Samples.{toy_hash, checksum, alice}
use lp_0002_private_multisig.Witnesses.Ledger.{
  toy_host, toy_host-DecodesBalances, no_commitments, with_commitments, before, after, transfer_30,
  transfer_30_validated, transfer_30_applied,
}
use lp_0002_private_multisig.Witnesses.Private.{toy_privacy}

abbrev clock_program : ProgramId
clock_program = replicate 8 5

-- A host whose programs change nothing.
abbrev idle_host : Host
idle_host = record {
  sha256 = toy_hash;
  execute = λ program caller pres words. ok (
      new_output program.id caller words pres
        (map (λ (pre : AccountWithMetadata). new_post_state pre.account) pres));
  message_hash = λ m. m.program_id;
  signature_is_valid = λ signature hash key. bytes_eq signature hash;
}

abbrev zone_of : Host → ChainHost
zone_of host = record {
  host = host;
  privacy = toy_privacy;
  block_bytes = λ b. b.block_id ∷ b.timestamp ∷ b.prev_block_hash;
  clock_id = clock_program;
  faucet_id = replicate 8 6;
  bridge_id = replicate 8 7;
  clock_words = λ timestamp. timestamp ∷ [];
  sign = λ signing_key hash. hash;
}

abbrev zone : ChainHost
zone = zone_of idle_host

abbrev clock_account : Account
clock_account = record default_account { program_owner = clock_program; data_bytes = 1 ∷ [] }

abbrev opening : V03State
opening = record {
  public_state = map (λ (id : Bytes). (id, clock_account)) clock_account_ids;
  commitment_set = no_commitments;
  nullifier_set = [];
  programs = (clock_program, record { id = clock_program; elf = [] }) ∷ [];
}

abbrev genesis : Block
genesis =
    into_pending_block zone
      (record {
        block_id = 1;
        prev_block_hash = replicate 32 0;
        timestamp = 60;
        transactions = public_transaction (clock_invocation zone 60) ∷ [];
      })
      alice

abbrev after_genesis : V03State
after_genesis = record opening { commitment_set = with_commitments no_commitments [] }

genesis_applies : apply_block zone none genesis opening ≡ ok after_genesis
unfolding apply_block validate_against_tip apply_block_to_state recompute_hash compute_hash
    into_pending_block clock_invocation split_last check_clock public_transaction_eq all_eq
    apply_transactions execute_on_state apply_or_panic compute_state_diff from_public_transaction
    authenticate_public_transaction_signers all_valid bytes_eq signer_account_ids lookup_account
    HashMap.get public_account_id toy_hash n_unique contains run_calls process_call check_output
    check_pre_states account_eq compute_public_authorized_pdas validate_execution from_balances
    is_valid_for HashMap.insert validate_total_balance validate_account validate_accounts
    validate_uniqueness_of_account_ids apply_claims apply_claim authorized_ids check_claimed
    check_declared check_nonces input_pre_states update_diff with_caller checksum apply_state_diff
    write_accounts increment_nonces public_account_nonce_increment extend_set insert_program
    extend_commitments insert_commitments
genesis_applies = refl

abbrev entry : HeadEntry
entry = record { this_msg = 9 ∷ []; block = genesis }

-- The chain before, with the block in the head, and with the block in the final tier.
abbrev fresh : ChainState
fresh = from_final opening none

abbrev led : ChainState
led = record fresh { head_state = after_genesis; head_blocks = entry ∷ [] }

abbrev settled : ChainState
settled = record led {
  final_state = after_genesis;
  final_tip = some (tip_of genesis);
  head_blocks = [];
}

genesis_adopted : apply_adopted zone fresh (9 ∷ []) genesis ≡ ok (led, applied)
unfolding apply_adopted adopt extend_head head_position_of position last_tip
genesis_adopted = ground (arith, genesis_applies)

genesis_known : head_position_of led (9 ∷ []) genesis ≡ some 0
unfolding head_position_of position bytes_eq into_pending_block
genesis_known = refl

genesis_finalized : apply_finalized zone led (9 ∷ []) genesis 100 ≡ ok (settled, applied)
unfolding apply_finalized finalize_through replay
genesis_finalized = ground (arith, genesis_known, genesis_applies)

led_reached : Events zone fresh led
unfolding run_event
led_reached = next (adopted (9 ∷ []) genesis) start (rw genesis_adopted refl)

settled_reached : Events zone fresh settled
unfolding run_event
settled_reached = next (finalized (9 ∷ []) genesis 100) led_reached (rw genesis_finalized refl)

Events-IsSound_example : IsSound zone led
Events-IsSound_example = Events-IsSound zone opening none led_reached

Events-Extends_example : Extends zone fresh settled
Events-Extends_example = Events-Extends zone fresh settled_reached

apply_adopted-Settled_example : Settled fresh genesis led applied
apply_adopted-Settled_example = apply_adopted-Settled zone fresh (9 ∷ []) genesis genesis_adopted

led-IsConsistent : IsConsistent zone led
unfolding replay last_tip
led-IsConsistent = rw genesis_applies refl

apply_finalized-Finalized_example :
    (after : ChainState) × (apply_finalized zone led (9 ∷ []) genesis 100 ≡ ok (after, applied))
    × Finalized zone led after
    × (after.head_blocks ≡ [])
apply_finalized-Finalized_example =
    apply_finalized-Finalized zone led (9 ∷ []) genesis 100 0 led-IsConsistent genesis_known

-- The transfer of 30 units, as a user's transaction.
abbrev busy : ChainHost
busy = zone_of toy_host

transfer_30_checked :
    execute_check_on_state busy before 7 100 (public_transaction transfer_30) ≡ ok after
unfolding execute_check_on_state validate_on_state compute_state_diff validate_restricted
    validate_doesnt_modify_account validate_bridge_account_modification restricted_account_ids
    apply_or_panic HashMap.get bytes_eq faucet_account_id bridge_account_id for_public_pda
    program_id_bytes u32_to_le_bytes toy_hash checksum
transfer_30_checked = rw (transfer_30_validated, transfer_30_applied) refl

execute_check_on_state-Guarded_example : Guarded busy (public_transaction transfer_30) before after
execute_check_on_state-Guarded_example =
    execute_check_on_state-Guarded busy before 7 100 (public_transaction transfer_30)
      toy_host-DecodesBalances transfer_30_checked
