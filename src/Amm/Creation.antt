-- ===== src/Amm/Creation.antt =====
-- `new_definition` of lez/programs/amm/src/new_definition.rs.
pub mod Root
pub mod Opening
use lp_0002_private_multisig.Prelude.{
  ℕ, suc, zero, ◌+◌, ◌*◌, ◌/◌, Option, none, some, List, [], ◌∷◌, Bool, true, false, not, Bytes,
  bytes_eq, codes, replicate, leb, if◌then◌else◌, Result, ok, err, ◌>>=◌, ◌>>◌, ensure, ok_or,
}
use lp_0002_private_multisig.Core.Account.{
  Account, AccountWithMetadata, ProgramId, AccountId, default_account, account_eq, try_into_data,
}
use lp_0002_private_multisig.Core.Program.{
  AccountPostState, ChainedCall, Claim, new_claimed_if_default,
}
use lp_0002_private_multisig.Token.Types.{Instruction, definition_id_of}
use lp_0002_private_multisig.Amm.Pool.{
  AmmPanic, invalid_pool, invalid_holding, wrong_token_program, same_token, wrong_pool_pda,
  wrong_vault_pda, wrong_lp_pda, active_pool, data_too_big, PoolDefinition, AmmHost, wrapping_mul,
  compute_pool_pda, compute_pool_pda_seed, compute_vault_pda, compute_vault_pda_seed,
  compute_liquidity_token_pda, compute_liquidity_token_pda_seed,
}
use lp_0002_private_multisig.Amm.Swap.{unchanged_posts}
use lp_0002_private_multisig.Amm.Liquidity.{Parties, parties_list, authorize, token_call}

-- `u128::isqrt`: the root of a quarter, doubled, and perhaps one more.
unfoldable pub isqrt_within : (fuel : ℕ) → ℕ → ℕ
isqrt_within zero n = 0
isqrt_within (suc fuel) n =
    let double = 2 * isqrt_within fuel (n / 4) in
    if leb ((double + 1) * (double + 1)) n then double + 1 else double

-- 64 quarters of a u128 leave nothing.
abbrev pub isqrt : ℕ → ℕ
isqrt n = isqrt_within 64 n

-- `PoolDefinition::default()`
abbrev pub default_pool : PoolDefinition
default_pool = record {
  definition_token_a_id = replicate 32 0;
  definition_token_b_id = replicate 32 0;
  vault_a_id = replicate 32 0;
  vault_b_id = replicate 32 0;
  liquidity_pool_id = replicate 32 0;
  liquidity_pool_supply = 0;
  reserve_a = 0;
  reserve_b = 0;
  fees = 0;
  active = false;
}

abbrev pub is_default : AccountWithMetadata → Bool
is_default pool = account_eq pool.account default_account

-- The pool that is stored.
unfoldable pub initial_pool :
    Parties
    → (definition_token_a_id definition_token_b_id : AccountId)
    → (token_a_amount token_b_amount : ℕ) → PoolDefinition
initial_pool a definition_token_a_id definition_token_b_id token_a_amount token_b_amount = record {
  definition_token_a_id = definition_token_a_id;
  definition_token_b_id = definition_token_b_id;
  vault_a_id = a.vault_a.account_id;
  vault_b_id = a.vault_b.account_id;
  liquidity_pool_id = a.pool_definition_lp.account_id;
  liquidity_pool_supply = isqrt (wrapping_mul token_a_amount token_b_amount);
  reserve_a = token_a_amount;
  reserve_b = token_b_amount;
  fees = 0;
  active = true;
}

module _ (host : AmmHost) where
  -- The definition of a user's holding.
  unfoldable pub holding_definition : AccountWithMetadata → Result AmmPanic AccountId
  holding_definition holder = do
    holding ← ok_or (host.token.read_holding holder.account.data_bytes) invalid_holding
    ok (definition_id_of holding)

  -- The pool that was there: the default one, if the account is not initialized.
  unfoldable pub old_pool : AccountWithMetadata → Result AmmPanic PoolDefinition
  old_pool pool =
      if is_default pool
      then ok default_pool
      else ok_or (host.read_pool pool.account.data_bytes) invalid_pool

  -- The checks of the addresses.
  unfoldable pub validate_addresses :
      ProgramId
      → (pool : AccountWithMetadata) → Parties
      → (definition_token_a_id definition_token_b_id : AccountId) → Result AmmPanic (Unit {0})
  validate_addresses amm_program_id pool a token_a token_b = do
    pool_pda ← compute_pool_pda host.sha256 amm_program_id token_a token_b
    ensure (bytes_eq pool.account_id pool_pda) wrong_pool_pda
    ensure
        (bytes_eq a.vault_a.account_id
          (compute_vault_pda host.sha256 amm_program_id pool.account_id token_a))
        wrong_vault_pda
    ensure
        (bytes_eq a.vault_b.account_id
          (compute_vault_pda host.sha256 amm_program_id pool.account_id token_b))
        wrong_vault_pda
    ensure
        (bytes_eq a.pool_definition_lp.account_id
          (compute_liquidity_token_pda host.sha256 amm_program_id pool.account_id))
        wrong_lp_pda

  -- The three calls: the liquidity, as a new token if there was no pool, and the two payments.
  unfoldable pub creation_calls :
      (pool : AccountWithMetadata) → Parties → PoolDefinition → List ChainedCall
  unfolding token_call
  creation_calls pool a p =
      let token = a.user_holding_a.account.program_owner in
      let instruction =
        if is_default pool
        then Instruction.new_fungible_definition (codes "LP Token") p.liquidity_pool_supply
        else Instruction.mint p.liquidity_pool_supply in
      token_call host token (authorize a.pool_definition_lp) a.user_holding_lp instruction
        (compute_liquidity_token_pda_seed host.sha256 pool.account_id ∷ [])
      ∷ token_call host token a.user_holding_b (authorize a.vault_b)
          (Instruction.transfer p.reserve_b)
          (compute_vault_pda_seed host.sha256 pool.account_id p.definition_token_b_id ∷ [])
      ∷ token_call host token a.user_holding_a (authorize a.vault_a)
          (Instruction.transfer p.reserve_a)
          (compute_vault_pda_seed host.sha256 pool.account_id p.definition_token_a_id ∷ [])
      ∷ []

  unfoldable pub new_definition :
      (pool : AccountWithMetadata)
      → Parties
      → (token_a_amount token_b_amount : ℕ) → ProgramId
      → Result AmmPanic (List AccountPostState × List ChainedCall)
  unfolding creation_calls
  new_definition pool a token_a_amount token_b_amount amm_program_id = do
    token_a ← holding_definition a.user_holding_a
    token_b ← holding_definition a.user_holding_b
    ensure (bytes_eq a.user_holding_b.account.program_owner a.user_holding_a.account.program_owner)
        wrong_token_program
    ensure (not (bytes_eq token_a token_b)) same_token
    validate_addresses amm_program_id pool a token_a token_b
    old ← old_pool pool
    ensure (not old.active) active_pool
    let p = initial_pool a token_a token_b token_a_amount token_b_amount
    data_bytes ← ok_or (try_into_data (host.pool_bytes p)) data_too_big
    seed ← compute_pool_pda_seed host.sha256 token_a token_b
    let pool_post = record pool.account { data_bytes = data_bytes }
    ok (
      new_claimed_if_default pool_post (Claim.pda seed) ∷ unchanged_posts (parties_list a),
      creation_calls pool a p,
    )
