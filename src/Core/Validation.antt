-- ===== src/Core/Validation.antt =====
-- `validate_execution` of lee/state_machine/core/src/program/mod.rs: the rules that every output of a
-- program has to keep.
pub mod Rules
use lp_0002_private_multisig.Prelude.{
  ℕ, Bool, true, false, not, ◌&&◌, ◌||◌, Option, none, some, List, [], ◌∷◌, map, Bytes, bytes_eq,
  n_unique, length, ltb, ◌==◌, if◌then◌else◌, Result, ok, err, ◌>>=◌, ◌>>◌, ensure, ok_or,
}
use lp_0002_private_multisig.Core.Account.{
  ProgramId, AccountId, Account, AccountWithMetadata, default_account, default_program_id,
  account_eq,
}
use lp_0002_private_multisig.Core.Program.{AccountPostState}
use lp_0002_private_multisig.Core.Balances.{WrappedBalanceSum, from_balances, wrapped_eq}

pub data ExecutionValidationError : Type 0 where
  pre_state_account_ids_not_unique : ExecutionValidationError
  mismatched_pre_state_post_state_length : (pre_length post_length : ℕ) → ExecutionValidationError
  modified_nonce : AccountId → ExecutionValidationError
  modified_program_owner : AccountId → ExecutionValidationError
  unauthorized_balance_decrease :
      AccountId → (owner executing : ProgramId) → ExecutionValidationError
  unauthorized_data_modification : AccountId → (executing : ProgramId) → ExecutionValidationError
  non_default_account_with_default_owner : AccountId → ExecutionValidationError
  balance_sum_overflow : ExecutionValidationError
  mismatched_total_balance : (pre post : WrappedBalanceSum) → ExecutionValidationError

abbrev pub account_ids : List AccountWithMetadata → List AccountId
account_ids [] = []
account_ids (a ∷ as') = a.account_id ∷ account_ids as'

abbrev pub pre_balances : List AccountWithMetadata → List ℕ
pre_balances [] = []
pre_balances (a ∷ as') = a.account.balance ∷ pre_balances as'

abbrev pub post_balances : List AccountPostState → List ℕ
post_balances [] = []
post_balances (a ∷ as') = a.account.balance ∷ post_balances as'

-- `validate_uniqueness_of_account_ids`
unfoldable pub validate_uniqueness_of_account_ids : List AccountWithMetadata → Bool
validate_uniqueness_of_account_ids pre_states =
    length pre_states == n_unique (account_ids pre_states)

-- The body of the loop, rules 3 to 7.
unfoldable pub validate_account :
    AccountWithMetadata → AccountPostState → ProgramId → Result ExecutionValidationError (Unit {0})
validate_account pre post executing = do
  ensure (pre.account.nonce == post.account.nonce) (modified_nonce pre.account_id)
  ensure (bytes_eq pre.account.program_owner post.account.program_owner)
      (modified_program_owner pre.account_id)
  let owner = pre.account.program_owner
  ensure (not (ltb post.account.balance pre.account.balance && not (bytes_eq owner executing)))
      (unauthorized_balance_decrease pre.account_id owner executing)
  ensure
      (not (
        not (bytes_eq pre.account.data_bytes post.account.data_bytes)
        && not (account_eq pre.account default_account)
        && not (bytes_eq owner executing)))
      (unauthorized_data_modification pre.account_id executing)
  ensure
      (not (
        bytes_eq post.account.program_owner default_program_id
        && not (account_eq pre.account default_account)))
      (non_default_account_with_default_owner pre.account_id)

-- The loop over `pre_states.iter().zip(post_states)`.
unfoldable pub validate_accounts :
    List AccountWithMetadata
    → List AccountPostState
    → ProgramId
    → Result ExecutionValidationError (Unit {0})
validate_accounts (pre ∷ pres) (post ∷ posts) executing =
    validate_account pre post executing >> validate_accounts pres posts executing
validate_accounts _ _ executing = ok tt

-- Rule 8.
unfoldable pub validate_total_balance :
    List AccountWithMetadata → List AccountPostState → Result ExecutionValidationError (Unit {0})
validate_total_balance pre_states post_states = do
  total_pre ← ok_or (from_balances (pre_balances pre_states)) balance_sum_overflow
  total_post ← ok_or (from_balances (post_balances post_states)) balance_sum_overflow
  ensure (wrapped_eq total_pre total_post) (mismatched_total_balance total_pre total_post)

unfoldable pub validate_execution :
    List AccountWithMetadata
    → List AccountPostState
    → ProgramId
    → Result ExecutionValidationError (Unit {0})
validate_execution pre_states post_states executing = do
  ensure (validate_uniqueness_of_account_ids pre_states) pre_state_account_ids_not_unique
  ensure (length pre_states == length post_states)
      (mismatched_pre_state_post_state_length (length pre_states) (length post_states))
  validate_accounts pre_states post_states executing
  validate_total_balance pre_states post_states
