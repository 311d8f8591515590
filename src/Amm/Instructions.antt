-- ===== src/Amm/Instructions.antt =====
-- `main` of lez/programs/amm/src/main.rs: the five instructions.
pub mod Value
use lp_0002_private_multisig.Prelude.{
  ℕ, List, [], ◌∷◌, Bool, not, ◌==◌, Result, ok, err, ◌>>=◌, ◌>>◌, ensure,
}
use lp_0002_private_multisig.Core.Account.{AccountWithMetadata}
use lp_0002_private_multisig.Core.Program.{
  AccountPostState, ChainedCall, ProgramInput, ProgramOutput, new_output, with_chained_calls,
}
use lp_0002_private_multisig.Amm.Pool.{
  AmmPanic, wrong_account_count, zero_argument, AmmInstruction, AmmHost,
}
use lp_0002_private_multisig.Amm.Swap.{swap_exact_input, swap_exact_output}
use lp_0002_private_multisig.Amm.Liquidity.{Parties, add_liquidity, remove_liquidity}
use lp_0002_private_multisig.Amm.Creation.{new_definition}

-- The accounts of a swap after the pool.
pub record SwapParties : Type 0 where
  pub vault_a : AccountWithMetadata
  pub vault_b : AccountWithMetadata
  pub user_holding_a : AccountWithMetadata
  pub user_holding_b : AccountWithMetadata

-- `pre_states.try_into()` for seven and for five accounts, without the pool.
unfoldable pub six_parties : List AccountWithMetadata → Result AmmPanic Parties
six_parties (vault_a ∷ vault_b ∷ lp ∷ holding_a ∷ holding_b ∷ holding_lp ∷ []) = ok (record {
  vault_a = vault_a;
  vault_b = vault_b;
  pool_definition_lp = lp;
  user_holding_a = holding_a;
  user_holding_b = holding_b;
  user_holding_lp = holding_lp;
})
six_parties _ = err wrong_account_count

unfoldable pub four_parties : List AccountWithMetadata → Result AmmPanic SwapParties
four_parties (vault_a ∷ vault_b ∷ holding_a ∷ holding_b ∷ []) = ok (record {
  vault_a = vault_a;
  vault_b = vault_b;
  user_holding_a = holding_a;
  user_holding_b = holding_b;
})
four_parties _ = err wrong_account_count

module _ (host : AmmHost) where
  -- The instruction at a pool and the accounts after it.
  unfoldable pub run_at :
      AmmInstruction
      → (pool : AccountWithMetadata) → (others : List AccountWithMetadata)
      → Result AmmPanic (List AccountPostState × List ChainedCall)
  run_at (AmmInstruction.new_definition token_a_amount token_b_amount amm_program_id) pool others =
      do
        a ← six_parties others
        ensure (not (token_a_amount == 0)) zero_argument
        ensure (not (token_b_amount == 0)) zero_argument
        new_definition host pool a token_a_amount token_b_amount amm_program_id
  run_at (AmmInstruction.add_liquidity min_liquidity max_amount_a max_amount_b) pool others = do
    a ← six_parties others
    ensure (not (min_liquidity == 0)) zero_argument
    add_liquidity host pool a min_liquidity max_amount_a max_amount_b
  run_at (AmmInstruction.remove_liquidity amount min_amount_a min_amount_b) pool others = do
    a ← six_parties others
    ensure (not (amount == 0)) zero_argument
    remove_liquidity host pool a amount min_amount_a min_amount_b
  run_at (AmmInstruction.swap_exact_input amount_in min_amount_out token_in_id) pool others = do
    a ← four_parties others
    swap_exact_input host pool a.vault_a a.vault_b a.user_holding_a a.user_holding_b amount_in
        min_amount_out token_in_id
  run_at (AmmInstruction.swap_exact_output amount_out max_amount_in token_in_id) pool others = do
    a ← four_parties others
    swap_exact_output host pool a.vault_a a.vault_b a.user_holding_a a.user_holding_b amount_out
        max_amount_in token_in_id

  unfoldable pub run_amm_instruction :
      AmmInstruction
      → List AccountWithMetadata
      → Result AmmPanic (List AccountPostState × List ChainedCall)
  run_amm_instruction instruction [] = err wrong_account_count
  run_amm_instruction instruction (pool ∷ others) = run_at instruction pool others

  -- `main`
  unfoldable pub amm_main : ProgramInput AmmInstruction → Result AmmPanic ProgramOutput
  unfolding run_amm_instruction
  amm_main input = do
    (post_states, chained_calls) ← run_amm_instruction input.instruction input.pre_states
    ok (
        with_chained_calls
          (new_output input.self_program_id input.caller_program_id input.instruction_words
            input.pre_states post_states)
          chained_calls)
