-- ===== src/AuthenticatedTransfer.antt =====
-- The builtin program that moves native balance: lez/programs/authenticated_transfer/src/main.rs and
-- its core crate. A panic of the guest is an error.
pub mod Conformance
use lp_0002_private_multisig.Prelude.{
  ℕ, ◌+◌, ◌-◌, Option, none, some, List, [], ◌∷◌, bytes_eq, ltb, leb, if◌then◌else◌, Result, ok,
  err, ◌>>=◌, ◌>>◌, ensure, ok_or,
}
use lp_0002_private_multisig.Core.Account.{
  Account, AccountWithMetadata, default_account, default_program_id, account_eq, u128_mod,
}
use lp_0002_private_multisig.Core.Program.{
  AccountPostState, ProgramInput, ProgramOutput, authorized, new_post_state, new_claimed,
  new_output,
}

pub data Instruction : Type 0 where
  transfer : (amount : ℕ) → Instruction
  initialize : Instruction

pub data TransferPanic : Type 0 where
  not_uninitialized not_authorized insufficient_balance balance_overflow : TransferPanic
  wrong_account_count : TransferPanic

-- `u128::checked_sub`, `u128::checked_add`
unfoldable pub checked_sub : ℕ → ℕ → Option ℕ
checked_sub a b = if leb b a then some (a - b) else none

unfoldable pub checked_add : ℕ → ℕ → Option ℕ
checked_add a b = if ltb (a + b) u128_mod then some (a + b) else none

unfoldable pub initialize_account : AccountWithMetadata → Result TransferPanic AccountPostState
initialize_account pre_state = do
  ensure (account_eq pre_state.account default_account) not_uninitialized
  ok (new_claimed pre_state.account authorized)

-- The recipient is claimed if its owner is the default program.
unfoldable pub recipient_post_state : Account → AccountPostState
recipient_post_state a =
    if bytes_eq a.program_owner default_program_id
    then new_claimed a authorized
    else new_post_state a

unfoldable pub transfer_balance :
    AccountWithMetadata → AccountWithMetadata → ℕ → Result TransferPanic (List AccountPostState)
unfolding checked_sub checked_add recipient_post_state
transfer_balance sender recipient balance_to_move = do
  ensure sender.is_authorized not_authorized
  sender_balance ← ok_or (checked_sub sender.account.balance balance_to_move) insufficient_balance
  recipient_balance ← ok_or (checked_add recipient.account.balance balance_to_move) balance_overflow
  ok (
      new_post_state (record sender.account { balance = sender_balance })
      ∷ recipient_post_state (record recipient.account { balance = recipient_balance })
      ∷ [])

-- The `match instruction` of `main`.
unfoldable pub run_instruction :
    Instruction → List AccountWithMetadata → Result TransferPanic (List AccountPostState)
unfolding initialize_account transfer_balance
run_instruction initialize (account_to_claim ∷ []) =
    initialize_account account_to_claim >>= λ post. ok (post ∷ [])
run_instruction initialize _ = err wrong_account_count
run_instruction (transfer amount) (sender ∷ recipient ∷ []) =
    transfer_balance sender recipient amount
run_instruction (transfer amount) _ = err wrong_account_count

-- `main`
unfoldable pub main : ProgramInput Instruction → Result TransferPanic ProgramOutput
unfolding run_instruction
main input = do
  post_states ← run_instruction input.instruction input.pre_states
  ok (
      new_output input.self_program_id input.caller_program_id input.instruction_words
        input.pre_states post_states)
