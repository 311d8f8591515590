-- ===== src/Chain/Transactions.antt =====
-- `LeeTransaction` of lez/common/src/transaction.rs: the three kinds of transactions, checked and applied.
pub mod Effects
pub mod Guards
use lp_0002_private_multisig.Prelude.{
  ℕ, Bool, true, false, not, ◌&&◌, Option, none, some, List, [], ◌∷◌, ◌++◌, Bytes, bytes_eq, ltb,
  if◌then◌else◌, Result, ok, err, ◌>>=◌, ◌>>◌, ensure, ok_or,
}
use lp_0002_private_multisig.Prelude.HashMap
use lp_0002_private_multisig.Core.Account.{AccountId, Account, account_eq}
use lp_0002_private_multisig.State.Types.{
  LeeError, InvalidInput, invalid_input, V03State, StateDiff, get_account_by_id, all_valid,
}
use lp_0002_private_multisig.State.Apply.{apply_state_diff}
use lp_0002_private_multisig.State.Public.{from_public_transaction}
use lp_0002_private_multisig.State.Private.{
  from_privacy_preserving_transaction, from_program_deployment_transaction,
}
use lp_0002_private_multisig.Chain.Types.{
  Failure, panicked, Outcome, with_error, LeeTransaction, public_transaction, privacy_preserving,
  program_deployment, TxKind, public_kind, privacy_preserving_kind, program_deployment_kind,
  TransactionMalformationError, invalid_transaction_signature, ChainHost, clock_account_ids,
  faucet_account_id, bridge_account_id,
}

unfoldable pub kind : LeeTransaction → TxKind
kind (public_transaction tx) = public_kind
kind (privacy_preserving tx) = privacy_preserving_kind
kind (program_deployment bytecode) = program_deployment_kind

abbrev pub is_public : LeeTransaction → Bool
is_public (public_transaction tx) = true
is_public _ = false

-- `validate_doesnt_modify_account`
unfoldable pub validate_doesnt_modify_account :
    V03State → StateDiff → AccountId → Result LeeError (Unit {0})
validate_doesnt_modify_account state diff account_id =
    elim (HashMap.get diff.public_diff account_id) [
      | none ↦ ok tt
      | some post ↦
          ensure (account_eq post (get_account_by_id state account_id))
            (invalid_input InvalidInput.restricted_system_account)
    ]

-- The loop over the restricted accounts.
unfoldable pub validate_restricted :
    V03State → StateDiff → List AccountId → Result LeeError (Unit {0})
unfolding validate_doesnt_modify_account
validate_restricted state diff [] = ok tt
validate_restricted state diff (id ∷ ids) = do
  validate_doesnt_modify_account state diff id
  validate_restricted state diff ids

-- The `only_balance_increased` of the bridge's account.
unfoldable pub only_balance_increased : (pre post : Account) → Bool
only_balance_increased pre post =
    account_eq (record post { balance = pre.balance }) pre && ltb pre.balance post.balance

module _ (chain : ChainHost) where
  -- `transaction_stateless_check`
  unfoldable pub transaction_stateless_check :
      LeeTransaction → Result TransactionMalformationError LeeTransaction
  transaction_stateless_check (public_transaction tx) =
      if all_valid chain.host.signature_is_valid (chain.host.message_hash tx.message)
        tx.witness_set.signatures_and_public_keys
      then ok (public_transaction tx)
      else err invalid_transaction_signature
  transaction_stateless_check (privacy_preserving tx) =
      if all_valid chain.privacy.signature_is_valid (chain.privacy.message_hash tx.message)
        tx.witness_set.signatures_and_public_keys
      then ok (privacy_preserving tx)
      else err invalid_transaction_signature
  transaction_stateless_check (program_deployment bytecode) = ok (program_deployment bytecode)

  unfoldable pub restricted_account_ids : List AccountId
  restricted_account_ids = clock_account_ids ++ faucet_account_id chain ∷ []

  unfoldable pub validate_bridge_account_modification :
      LeeTransaction → V03State → StateDiff → Result LeeError (Unit {0})
  unfolding only_balance_increased
  validate_bridge_account_modification tx state diff =
      let bridge = bridge_account_id chain in
      elim (HashMap.get diff.public_diff bridge) [
        | none ↦ ok tt
        | some post ↦
            ensure (is_public tx) (invalid_input InvalidInput.bridge_modified_privately)
            >> ensure (only_balance_increased (get_account_by_id state bridge) post)
                (invalid_input InvalidInput.restricted_bridge_account)
      ]

  module _ (state : V03State) (block_id timestamp : ℕ) where
    unfoldable pub compute_state_diff : LeeTransaction → Result LeeError StateDiff
    compute_state_diff (public_transaction tx) =
        from_public_transaction chain.host state block_id timestamp tx
    compute_state_diff (privacy_preserving tx) =
        from_privacy_preserving_transaction chain.privacy state block_id timestamp tx
    compute_state_diff (program_deployment bytecode) =
        from_program_deployment_transaction chain.privacy state bytecode

    unfoldable pub validate_on_state : LeeTransaction → Result LeeError StateDiff
    unfolding compute_state_diff restricted_account_ids validate_restricted
        validate_bridge_account_modification
    validate_on_state tx = do
      diff ← compute_state_diff tx
      validate_restricted state diff restricted_account_ids
      validate_bridge_account_modification tx state diff
      ok diff

    -- `apply_state_diff`, which panics if a nonce overflows.
    unfoldable pub apply_or_panic : StateDiff → Outcome LeeError V03State
    apply_or_panic diff = ok_or (apply_state_diff chain.host.sha256 state diff) panicked

    -- For the transactions of users: with the guards of the system accounts.
    unfoldable pub execute_check_on_state : LeeTransaction → Outcome LeeError V03State
    unfolding apply_or_panic validate_on_state
    execute_check_on_state tx = do
      diff ← with_error (λ e. e) (validate_on_state tx)
      apply_or_panic diff

    -- For the transactions of a block, without the guards.
    unfoldable pub execute_on_state : LeeTransaction → Outcome LeeError V03State
    unfolding apply_or_panic compute_state_diff
    execute_on_state tx = do diff ← with_error (λ e. e) (compute_state_diff tx); apply_or_panic diff
