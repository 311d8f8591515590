-- ===== src/Amm/Swap.antt =====
-- `swap_exact_input` and `swap_exact_output` of lez/programs/amm/src/swap.rs.
pub mod Product
pub mod Reserves
use lp_0002_private_multisig.Prelude.{
  ℕ, ◌-◌, ◌/◌, Option, none, some, List, [], ◌∷◌, Bool, true, not, Bytes, bytes_eq, leb, ltb, ◌==◌,
  if◌then◌else◌, Result, ok, err, ◌>>=◌, ◌>>◌, ensure, ok_or,
}
use lp_0002_private_multisig.Core.Account.{AccountId, Account, AccountWithMetadata, try_into_data}
use lp_0002_private_multisig.Core.Program.{AccountPostState, ChainedCall, new_post_state}
use lp_0002_private_multisig.Token.Types.{
  TokenHolding, fungible_holding, nft_master, nft_printed_copy, Instruction, definition_id_of,
}
use lp_0002_private_multisig.Amm.Pool.{
  AmmPanic, invalid_pool, inactive_pool, wrong_vault_a, wrong_vault_b, invalid_vault, not_fungible,
  reserve_exceeds_vault, unknown_token, multiplication_overflow, division_by_zero,
  amount_below_minimum, amount_above_maximum, zero_amount, amount_exceeds_reserve, data_too_big,
  PoolDefinition, AmmHost, wrapping_add, wrapping_sub, checked_mul, div_ceil,
  compute_vault_pda_seed,
}

-- The withdraw amount of `swap_logic`.
unfoldable pub amount_out :
    (swap_amount_in min_amount_out : ℕ) (reserve_deposit reserve_withdraw : ℕ) → Result AmmPanic ℕ
amount_out swap_amount_in min_amount_out reserve_deposit reserve_withdraw = do
  product ← ok_or (checked_mul reserve_withdraw swap_amount_in) multiplication_overflow
  let total = wrapping_add reserve_deposit swap_amount_in
  ensure (not (total == 0)) division_by_zero
  let withdraw_amount = product / total
  ensure (leb min_amount_out withdraw_amount) amount_below_minimum
  ensure (not (withdraw_amount == 0)) zero_amount
  ok withdraw_amount

-- The deposit amount of `exact_output_swap_logic`.
unfoldable pub amount_in :
    (exact_amount_out max_amount_in : ℕ) (reserve_deposit reserve_withdraw : ℕ) → Result AmmPanic ℕ
amount_in exact_amount_out max_amount_in reserve_deposit reserve_withdraw = do
  ensure (not (exact_amount_out == 0)) zero_amount
  ensure (ltb exact_amount_out reserve_withdraw) amount_exceeds_reserve
  product ← ok_or (checked_mul reserve_deposit exact_amount_out) multiplication_overflow
  let deposit_amount = div_ceil product (reserve_withdraw - exact_amount_out)
  ensure (leb deposit_amount max_amount_in) amount_above_maximum
  ok deposit_amount

-- The pool that `create_swap_post_states` stores.
unfoldable pub next_pool :
    PoolDefinition → (deposit_a withdraw_a deposit_b withdraw_b : ℕ) → PoolDefinition
next_pool p deposit_a withdraw_a deposit_b withdraw_b = record p {
  reserve_a = wrapping_sub (wrapping_add p.reserve_a deposit_a) withdraw_a;
  reserve_b = wrapping_sub (wrapping_add p.reserve_b deposit_b) withdraw_b;
}

unfoldable pub unchanged_posts : List AccountWithMetadata → List AccountPostState
unchanged_posts [] = []
unchanged_posts (a ∷ l) = new_post_state a.account ∷ unchanged_posts l

-- The deposit and the withdrawal, for the two reserves.
abbrev pub Price : Type 0
Price = (reserve_deposit reserve_withdraw : ℕ) → Result AmmPanic (ℕ × ℕ)

abbrev pub exact_input : (swap_amount_in min_amount_out : ℕ) → Price
exact_input swap_amount_in min_amount_out reserve_deposit reserve_withdraw =
    amount_out swap_amount_in min_amount_out reserve_deposit reserve_withdraw >>= λ withdraw_amount.
    ok (swap_amount_in, withdraw_amount)

abbrev pub exact_output : (exact_amount_out max_amount_in : ℕ) → Price
exact_output exact_amount_out max_amount_in reserve_deposit reserve_withdraw =
    amount_in exact_amount_out max_amount_in reserve_deposit reserve_withdraw >>= λ deposit_amount.
    ok (deposit_amount, exact_amount_out)

module _ (host : AmmHost) where
  -- The balance of a vault, which must hold at least the reserve.
  unfoldable pub check_vault : AccountWithMetadata → (reserve : ℕ) → Result AmmPanic (Unit {0})
  check_vault vault reserve =
      ok_or (host.token.read_holding vault.account.data_bytes) invalid_vault >>= λ holding.
      elim holding [
        | fungible_holding id balance ↦ ensure (leb reserve balance) reserve_exceeds_vault
        | nft_master id prints ↦ err not_fungible
        | nft_printed_copy id owned ↦ err not_fungible
      ]

  unfoldable pub validate_swap_setup :
      (pool vault_a vault_b : AccountWithMetadata) → Result AmmPanic PoolDefinition
  validate_swap_setup pool vault_a vault_b = do
    p ← ok_or (host.read_pool pool.account.data_bytes) invalid_pool
    ensure p.active inactive_pool
    ensure (bytes_eq vault_a.account_id p.vault_a_id) wrong_vault_a
    ensure (bytes_eq vault_b.account_id p.vault_b_id) wrong_vault_b
    check_vault vault_a p.reserve_a
    check_vault vault_b p.reserve_b
    ok p

  -- The two chained calls: the deposit, and the withdrawal from the vault under its seed.
  unfoldable pub swap_calls :
      (user_deposit vault_deposit vault_withdraw user_withdraw : AccountWithMetadata)
      → (deposit_amount withdraw_amount : ℕ) → (pool_id : AccountId)
      → Result AmmPanic (List ChainedCall)
  swap_calls user_deposit vault_deposit vault_withdraw user_withdraw deposit_amount withdraw_amount
        pool_id =
      do
        holding ← ok_or (host.token.read_holding vault_withdraw.account.data_bytes) invalid_vault
        ok (
            record {
              program_id = user_deposit.account.program_owner;
              pre_states = user_deposit ∷ vault_deposit ∷ [];
              instruction_data = host.to_vec (Instruction.transfer deposit_amount);
              pda_seeds = [];
            }
            ∷ record {
              program_id = user_deposit.account.program_owner;
              pre_states = record vault_withdraw { is_authorized = true } ∷ user_withdraw ∷ [];
              instruction_data = host.to_vec (Instruction.transfer withdraw_amount);
              pda_seeds =
                  compute_vault_pda_seed host.sha256 pool_id (definition_id_of holding) ∷ [];
            }
            ∷ [])

  unfoldable pub create_swap_post_states :
      AccountWithMetadata
      → PoolDefinition
      → List AccountWithMetadata
      → Result AmmPanic (List AccountPostState)
  create_swap_post_states pool next others = do
    data_bytes ← ok_or (try_into_data (host.pool_bytes next)) data_too_big
    ok (new_post_state (record pool.account { data_bytes = data_bytes }) ∷ unchanged_posts others)

  -- The arm for token A as the deposit, and that for token B.
  unfoldable pub swap_a :
      Price
      → (pool vault_a vault_b user_holding_a user_holding_b : AccountWithMetadata) → PoolDefinition
      → Result AmmPanic (List AccountPostState × List ChainedCall)
  unfolding create_swap_post_states
  swap_a price pool vault_a vault_b user_holding_a user_holding_b p = do
    let others = vault_a ∷ vault_b ∷ user_holding_a ∷ user_holding_b ∷ []
    (deposit_a, withdraw_b) ← price p.reserve_a p.reserve_b
    calls ←
        swap_calls user_holding_a vault_a vault_b user_holding_b deposit_a withdraw_b
          pool.account_id
    posts ← create_swap_post_states pool (next_pool p deposit_a 0 0 withdraw_b) others
    ok (posts, calls)

  unfoldable pub swap_b :
      Price
      → (pool vault_a vault_b user_holding_a user_holding_b : AccountWithMetadata) → PoolDefinition
      → Result AmmPanic (List AccountPostState × List ChainedCall)
  unfolding create_swap_post_states
  swap_b price pool vault_a vault_b user_holding_a user_holding_b p = do
    let others = vault_a ∷ vault_b ∷ user_holding_a ∷ user_holding_b ∷ []
    (deposit_b, withdraw_a) ← price p.reserve_b p.reserve_a
    calls ←
        swap_calls user_holding_b vault_b vault_a user_holding_a deposit_b withdraw_a
          pool.account_id
    posts ← create_swap_post_states pool (next_pool p 0 withdraw_a deposit_b 0) others
    ok (posts, calls)

  -- The body that the two swaps share; they differ in the price.
  unfoldable pub swap_at :
      Price
      → (pool vault_a vault_b user_holding_a user_holding_b : AccountWithMetadata)
      → (token_in_id : AccountId) → Result AmmPanic (List AccountPostState × List ChainedCall)
  swap_at price pool vault_a vault_b user_holding_a user_holding_b token_in_id = do
    p ← validate_swap_setup pool vault_a vault_b
    (if bytes_eq token_in_id p.definition_token_a_id
        then swap_a price pool vault_a vault_b user_holding_a user_holding_b p
        else if bytes_eq token_in_id p.definition_token_b_id
        then swap_b price pool vault_a vault_b user_holding_a user_holding_b p
        else err unknown_token)

  abbrev pub swap_exact_input :
      (pool vault_a vault_b user_holding_a user_holding_b : AccountWithMetadata)
      → (swap_amount_in min_amount_out : ℕ) → (token_in_id : AccountId)
      → Result AmmPanic (List AccountPostState × List ChainedCall)
  swap_exact_input pool vault_a vault_b user_holding_a user_holding_b swap_amount_in min_amount_out
        token_in_id =
      swap_at (exact_input swap_amount_in min_amount_out) pool vault_a vault_b user_holding_a
        user_holding_b token_in_id

  abbrev pub swap_exact_output :
      (pool vault_a vault_b user_holding_a user_holding_b : AccountWithMetadata)
      → (exact_amount_out max_amount_in : ℕ) → (token_in_id : AccountId)
      → Result AmmPanic (List AccountPostState × List ChainedCall)
  swap_exact_output pool vault_a vault_b user_holding_a user_holding_b exact_amount_out
        max_amount_in token_in_id =
      swap_at (exact_output exact_amount_out max_amount_in) pool vault_a vault_b user_holding_a
        user_holding_b token_in_id
