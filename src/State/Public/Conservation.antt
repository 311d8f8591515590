-- ===== src/State/Public/Conservation.antt =====
-- A public transaction creates and destroys no native balance.
use mathlib.Core.Path.{subst}
use lp_0002_private_multisig.Prelude.{
  ℕ, zero, suc, ◌≡◌, refl, ap, sym, none, some, List, [], ◌∷◌, ◌++◌, arith, ok, >>=-eq-ok, inl, inr,
  Option-cases, Result-cases,
}
use lp_0002_private_multisig.Prelude.HashMap
use lp_0002_private_multisig.Prelude.HashMap.{HashMap}
use lp_0002_private_multisig.Core.Account.{Account}
use lp_0002_private_multisig.State.Types.{
  V03State, StateDiff, PublicTransaction, Host, lookup_account, max_number_chained_calls,
}
use lp_0002_private_multisig.State.Apply.{write_accounts, increment_nonces, apply_state_diff}
use lp_0002_private_multisig.State.Public.{
  process_call, run_calls, initial_call, from_public_transaction,
}
use lp_0002_private_multisig.State.Checks.{Call, authenticate_public_transaction_signers}
use lp_0002_private_multisig.State.Totals.{
  total_balance, replaced, total_balance-write_accounts, total_balance-increment_nonces,
}
use lp_0002_private_multisig.State.Public.Round.{
  DecodesBalances, IsSound, process_call-IsSound, ok-inj,
}

module _ (host : Host) (state : V03State) (block_id timestamp : ℕ) where
  run_calls-IsSound :
      (remaining : ℕ) (queue : List Call) (diff : HashMap Account) {diff' : HashMap Account}
      → DecodesBalances host
      → run_calls host state block_id timestamp remaining queue diff ≡ ok diff'
      → IsSound state.public_state diff
      → IsSound state.public_state diff'
  unfolding run_calls
  run_calls-IsSound zero [] diff decodes h s = subst (IsSound state.public_state) (ok-inj h) s
  run_calls-IsSound (suc remaining) [] diff decodes h s =
      subst (IsSound state.public_state) (ok-inj h) s
  run_calls-IsSound zero (c ∷ queue) diff decodes h s = cc
  run_calls-IsSound (suc remaining) ((call, caller) ∷ queue) diff decodes h s =
      let ((new_diff, calls), done, rest) =
        >>=-eq-ok (process_call host state block_id timestamp call caller diff) _ h in
      run_calls-IsSound remaining (calls ++ queue) new_diff decodes rest
        (process_call-IsSound host state block_id timestamp call caller diff decodes done s)

  pub empty-IsSound : IsSound state.public_state []
  unfolding total_balance replaced lookup_account HashMap.get
  empty-IsSound = record { distinct = tt; balanced = refl; nonces = λ k. refl }

  -- What a validated transaction has passed.
  pub record Validated (tx : PublicTransaction) (diff : StateDiff) : Type 0 where
    pub authenticated :
        authenticate_public_transaction_signers host tx state ≡ ok diff.signer_account_ids
    pub executed :
        run_calls host state block_id timestamp
          (suc max_number_chained_calls)
          (initial_call host state block_id timestamp tx diff.signer_account_ids ∷ [])
          []
        ≡ ok diff.public_diff
    pub no_program : diff.program ≡ none

  pub from_public_transaction_inv :
      (tx : PublicTransaction) {diff : StateDiff}
      → from_public_transaction host state block_id timestamp tx ≡ ok diff
      → Validated tx diff
  unfolding from_public_transaction
  from_public_transaction_inv tx {diff} h =
      elim (Result-cases (authenticate_public_transaction_signers host tx state)) [
        | inr (error, e) ↦ absurd (ground arith)
        | inl (signers, auth) ↦
            let calls = initial_call host state block_id timestamp tx signers ∷ [] in
            elim (Result-cases
              (run_calls host state block_id timestamp (suc max_number_chained_calls) calls [])) [
                | inr (error, e) ↦ absurd (ground arith)
                | inl (d, ran) ↦
                    let same : diff ≡ record {
                      signer_account_ids = signers;
                      public_diff = d;
                      new_commitments = [];
                      new_nullifiers = [];
                      program = none;
                    } =
                      ground arith in
                    subst (Validated tx) (sym same)
                      (record { authenticated = auth; executed = ran; no_program = refl })
              ]
      ]

  pub validated-IsSound :
      (tx : PublicTransaction) {diff : StateDiff}
      → DecodesBalances host
      → from_public_transaction host state block_id timestamp tx ≡ ok diff
      → IsSound state.public_state diff.public_diff
  validated-IsSound tx decodes h =
      run_calls-IsSound (suc max_number_chained_calls) _ [] decodes
        (from_public_transaction_inv tx h).executed empty-IsSound

  -- Whatever the programs do: if a public transaction is validated and its diff applied, then the sum
  -- of all public balances is the same after as before.
  pub total_balance-public_transaction :
      (tx : PublicTransaction) {diff : StateDiff} {state' : V03State}
      → DecodesBalances host
      → from_public_transaction host state block_id timestamp tx ≡ ok diff
      → apply_state_diff host.sha256 state diff ≡ some state'
      → total_balance state'.public_state ≡ total_balance state.public_state
  unfolding apply_state_diff
  total_balance-public_transaction tx {diff} {state'} decodes h applied =
      let sound = validated-IsSound tx decodes h in
      let written = write_accounts diff.public_diff state.public_state in
      elim (Option-cases (increment_nonces diff.signer_account_ids written)) [
        | inl overflow ↦ absurd (ground arith)
        | inr (accounts, e) ↦
            let same : state'.public_state ≡ accounts = ground arith in
            omega (
              arith,
              ap total_balance same,
              total_balance-increment_nonces diff.signer_account_ids written e,
              total_balance-write_accounts diff.public_diff state.public_state sound.distinct,
              sound.balanced,
            )
      ]
