-- ===== src/Amm/Liquidity.antt =====
-- `add_liquidity` and `remove_liquidity` of lez/programs/amm/src: add.rs and remove.rs. The products
-- of these two wrap, unlike those of the swaps.
pub mod Shares
pub mod Deposits
pub mod Withdrawals
use lp_0002_private_multisig.Prelude.{
  ℕ, ◌/◌, Option, none, some, List, [], ◌∷◌, Bool, true, not, Bytes, bytes_eq, leb, ◌==◌,
  if◌then◌else◌, Result, ok, err, ◌>>=◌, ◌>>◌, ensure, ok_or,
}
use lp_0002_private_multisig.Core.Account.{AccountId, Account, AccountWithMetadata, ProgramId}
use lp_0002_private_multisig.Core.Program.{AccountPostState, ChainedCall}
use lp_0002_private_multisig.Token.Types.{
  TokenHolding, fungible_holding, nft_master, nft_printed_copy, Instruction,
}
use lp_0002_private_multisig.Amm.Pool.{
  AmmPanic, invalid_pool, inactive_pool, wrong_vault_a, wrong_vault_b, invalid_vault, not_fungible,
  reserve_exceeds_vault, division_by_zero, amount_below_minimum, zero_amount, wrong_lp_definition,
  zero_maximum, zero_minimum, zero_reserve, zero_liquidity, liquidity_below_minimum,
  invalid_holding, wrong_liquidity_account, PoolDefinition, AmmHost, wrapping_add, wrapping_sub,
  wrapping_mul, compute_vault_pda_seed, compute_liquidity_token_pda_seed,
}
use lp_0002_private_multisig.Amm.Swap.{create_swap_post_states}

abbrev pub min : ℕ → ℕ → ℕ
min a b = if leb a b then a else b

-- The accounts that both instructions take after the pool.
pub record Parties : Type 0 where
  pub vault_a : AccountWithMetadata
  pub vault_b : AccountWithMetadata
  pub pool_definition_lp : AccountWithMetadata
  pub user_holding_a : AccountWithMetadata
  pub user_holding_b : AccountWithMetadata
  pub user_holding_lp : AccountWithMetadata

abbrev pub parties_list : Parties → List AccountWithMetadata
parties_list a =
    a.vault_a ∷ a.vault_b ∷ a.pool_definition_lp ∷ a.user_holding_a ∷ a.user_holding_b
    ∷ a.user_holding_lp ∷ []

abbrev pub authorize : AccountWithMetadata → AccountWithMetadata
authorize a = record a { is_authorized = true }

-- The amounts of a deposit, and the liquidity that is minted for it.
pub record Deposit : Type 0 where
  pub actual_amount_a : ℕ
  pub actual_amount_b : ℕ
  pub delta_lp : ℕ

unfoldable pub deposit_of :
    PoolDefinition → (min_amount_liquidity max_amount_a max_amount_b : ℕ) → Result AmmPanic Deposit
deposit_of p min_amount_liquidity max_amount_a max_amount_b = do
  let ideal_a = wrapping_mul p.reserve_a max_amount_b / p.reserve_b
  let ideal_b = wrapping_mul p.reserve_b max_amount_a / p.reserve_a
  let actual_a = min ideal_a max_amount_a
  let actual_b = min ideal_b max_amount_b
  ensure (not (actual_a == 0)) zero_amount
  ensure (not (actual_b == 0)) zero_amount
  let for_a = wrapping_mul p.liquidity_pool_supply actual_a / p.reserve_a
  let for_b = wrapping_mul p.liquidity_pool_supply actual_b / p.reserve_b
  let delta_lp = min for_a for_b
  ensure (not (delta_lp == 0)) zero_liquidity
  ensure (leb min_amount_liquidity delta_lp) liquidity_below_minimum
  ok (record { actual_amount_a = actual_a; actual_amount_b = actual_b; delta_lp = delta_lp })

unfoldable pub pool_with_deposit : PoolDefinition → Deposit → PoolDefinition
pool_with_deposit p d = record p {
  liquidity_pool_supply = wrapping_add p.liquidity_pool_supply d.delta_lp;
  reserve_a = wrapping_add p.reserve_a d.actual_amount_a;
  reserve_b = wrapping_add p.reserve_b d.actual_amount_b;
}

-- The amounts of a withdrawal, and the liquidity that is burnt for it.
pub record Withdrawal : Type 0 where
  pub withdraw_amount_a : ℕ
  pub withdraw_amount_b : ℕ
  pub delta_lp : ℕ

unfoldable pub withdrawal_of :
    PoolDefinition
    → (remove_liquidity_amount min_amount_a min_amount_b : ℕ) → Result AmmPanic Withdrawal
withdrawal_of p amount min_amount_a min_amount_b = do
  let supply = p.liquidity_pool_supply
  ensure (not (supply == 0)) division_by_zero
  let withdraw_a = wrapping_mul p.reserve_a amount / supply
  let withdraw_b = wrapping_mul p.reserve_b amount / supply
  ensure (leb min_amount_a withdraw_a) amount_below_minimum
  ensure (leb min_amount_b withdraw_b) amount_below_minimum
  let delta_lp = wrapping_mul supply amount / supply
  ok (record {
    withdraw_amount_a = withdraw_a;
    withdraw_amount_b = withdraw_b;
    delta_lp = delta_lp;
  })

unfoldable pub pool_with_withdrawal : PoolDefinition → Withdrawal → PoolDefinition
pool_with_withdrawal p w =
    let supply = wrapping_sub p.liquidity_pool_supply w.delta_lp in
    record p {
      liquidity_pool_supply = supply;
      reserve_a = wrapping_sub p.reserve_a w.withdraw_amount_a;
      reserve_b = wrapping_sub p.reserve_b w.withdraw_amount_b;
      active = not (supply == 0);
    }

module _ (host : AmmHost) where
  -- The balance of a fungible holding account.
  unfoldable pub fungible_balance : (invalid : AmmPanic) → AccountWithMetadata → Result AmmPanic ℕ
  fungible_balance invalid holder =
      ok_or (host.token.read_holding holder.account.data_bytes) invalid >>= λ holding.
      elim holding [
        | fungible_holding id balance ↦ ok balance
        | nft_master id prints ↦ err not_fungible
        | nft_printed_copy id owned ↦ err not_fungible
      ]

  -- A chained call of the token program.
  unfoldable pub token_call :
      ProgramId
      → (from to : AccountWithMetadata) → Instruction
      → (pda_seeds : List Bytes) → ChainedCall
  token_call token_program_id from to instruction pda_seeds = record {
    program_id = token_program_id;
    pre_states = from ∷ to ∷ [];
    instruction_data = host.to_vec instruction;
    pda_seeds = pda_seeds;
  }

  -- The checks of `add_liquidity` before the amounts.
  unfoldable pub validate_deposit :
      PoolDefinition → Parties → (max_amount_a max_amount_b : ℕ) → Result AmmPanic (Unit {0})
  validate_deposit p a max_amount_a max_amount_b = do
    ensure (bytes_eq a.vault_a.account_id p.vault_a_id) wrong_vault_a
    ensure (bytes_eq p.liquidity_pool_id a.pool_definition_lp.account_id) wrong_lp_definition
    ensure (bytes_eq a.vault_b.account_id p.vault_b_id) wrong_vault_b
    ensure (not (max_amount_a == 0)) zero_maximum
    ensure (not (max_amount_b == 0)) zero_maximum
    vault_b_balance ← fungible_balance invalid_vault a.vault_b
    vault_a_balance ← fungible_balance invalid_vault a.vault_a
    ensure (not (p.reserve_a == 0)) zero_reserve
    ensure (not (p.reserve_b == 0)) zero_reserve
    ensure (leb p.reserve_a vault_a_balance) reserve_exceeds_vault
    ensure (leb p.reserve_b vault_b_balance) reserve_exceeds_vault

  -- The three calls of `add_liquidity`: the liquidity is minted, and the two tokens are paid.
  unfoldable pub deposit_calls : (pool_id : AccountId) → Parties → Deposit → List ChainedCall
  deposit_calls pool_id a d =
      let token = a.user_holding_a.account.program_owner in
      token_call token (authorize a.pool_definition_lp) a.user_holding_lp
        (Instruction.mint d.delta_lp) (compute_liquidity_token_pda_seed host.sha256 pool_id ∷ [])
      ∷ token_call token a.user_holding_b a.vault_b (Instruction.transfer d.actual_amount_b) []
      ∷ token_call token a.user_holding_a a.vault_a (Instruction.transfer d.actual_amount_a) []
      ∷ []

  unfoldable pub add_liquidity :
      (pool : AccountWithMetadata)
      → Parties
      → (min_amount_liquidity max_amount_to_add_token_a max_amount_to_add_token_b : ℕ)
      → Result AmmPanic (List AccountPostState × List ChainedCall)
  add_liquidity pool a min_amount_liquidity max_amount_a max_amount_b = do
    p ← ok_or (host.read_pool pool.account.data_bytes) invalid_pool
    validate_deposit p a max_amount_a max_amount_b
    d ← deposit_of p min_amount_liquidity max_amount_a max_amount_b
    posts ← create_swap_post_states host pool (pool_with_deposit p d) (parties_list a)
    ok (posts, deposit_calls pool.account_id a d)

  -- The checks of `remove_liquidity` before the amounts.
  unfoldable pub validate_withdrawal :
      PoolDefinition → Parties → (min_amount_a min_amount_b : ℕ) → Result AmmPanic (Unit {0})
  validate_withdrawal p a min_amount_a min_amount_b = do
    ensure p.active inactive_pool
    ensure (bytes_eq p.liquidity_pool_id a.pool_definition_lp.account_id) wrong_lp_definition
    ensure (bytes_eq a.vault_a.account_id p.vault_a_id) wrong_vault_a
    ensure (bytes_eq a.vault_b.account_id p.vault_b_id) wrong_vault_b
    ensure (not (min_amount_a == 0)) zero_minimum
    ensure (not (min_amount_b == 0)) zero_minimum
    holding ← ok_or (host.token.read_holding a.user_holding_lp.account.data_bytes) invalid_holding
    (elim holding [
      | fungible_holding id balance ↦
          ensure (leb balance p.liquidity_pool_supply) wrong_liquidity_account
          >> ensure (bytes_eq id p.liquidity_pool_id) wrong_liquidity_account
      | nft_master id prints ↦ err not_fungible
      | nft_printed_copy id owned ↦ err not_fungible
    ])

  -- The three calls of `remove_liquidity`: the liquidity is burnt, and the vaults pay.
  unfoldable pub withdrawal_calls :
      (pool_id : AccountId) → PoolDefinition → Parties → Withdrawal → List ChainedCall
  withdrawal_calls pool_id p a w =
      let token = a.user_holding_a.account.program_owner in
      token_call token (authorize a.pool_definition_lp) a.user_holding_lp
        (Instruction.burn w.delta_lp) (compute_liquidity_token_pda_seed host.sha256 pool_id ∷ [])
      ∷ token_call token (authorize a.vault_b) a.user_holding_b
          (Instruction.transfer w.withdraw_amount_b)
          (compute_vault_pda_seed host.sha256 pool_id p.definition_token_b_id ∷ [])
      ∷ token_call token (authorize a.vault_a) a.user_holding_a
          (Instruction.transfer w.withdraw_amount_a)
          (compute_vault_pda_seed host.sha256 pool_id p.definition_token_a_id ∷ [])
      ∷ []

  unfoldable pub remove_liquidity :
      (pool : AccountWithMetadata)
      → Parties
      → (remove_liquidity_amount min_amount_to_remove_token_a min_amount_to_remove_token_b : ℕ)
      → Result AmmPanic (List AccountPostState × List ChainedCall)
  remove_liquidity pool a amount min_amount_a min_amount_b = do
    p ← ok_or (host.read_pool pool.account.data_bytes) invalid_pool
    validate_withdrawal p a min_amount_a min_amount_b
    w ← withdrawal_of p amount min_amount_a min_amount_b
    posts ← create_swap_post_states host pool (pool_with_withdrawal p w) (parties_list a)
    ok (posts, withdrawal_calls pool.account_id p a w)
