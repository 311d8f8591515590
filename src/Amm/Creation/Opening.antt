-- ===== src/Amm/Creation/Opening.antt =====
-- What a pool is opened with.
use lp_0002_private_multisig.Prelude.{
  ℕ, ◌*◌, ◌<◌, ◌≡◌, ◌≢◌, refl, some, List, true, not, bytes_eq, bytes_eq_iff, ok, >>=-eq-ok,
  ensure-eq-ok, arith,
}
use lp_0002_private_multisig.Core.Account.{
  AccountWithMetadata, AccountId, ProgramId, u128_mod, try_into_data,
}
use lp_0002_private_multisig.Core.Program.{AccountPostState, ChainedCall, new_claimed_if_default}
use lp_0002_private_multisig.Amm.Pool.{
  AmmHost, PoolDefinition, same_token, wrong_token_program, active_pool, wrapping_mul,
  compute_pool_pda, compute_vault_pda, compute_liquidity_token_pda,
}
use lp_0002_private_multisig.Amm.Swap.Reserves.{pool_after}
use lp_0002_private_multisig.Amm.Liquidity.{Parties}
use lp_0002_private_multisig.Amm.Creation.{
  initial_pool, holding_definition, old_pool, validate_addresses, new_definition,
}
use lp_0002_private_multisig.Amm.Creation.Root.{IsRoot, isqrt-IsRoot}

-- What `new_definition` promises.
pub record Opened (host : AmmHost) (amm_program_id : ProgramId) (pool : AccountWithMetadata)
    (a : Parties) (token_a_amount token_b_amount : ℕ) (posts : List AccountPostState) : Type 0 where
  pub stored : PoolDefinition
  pub is_stored : pool_after host posts ≡ some stored
  pub in_a : stored.reserve_a ≡ token_a_amount
  pub in_b : stored.reserve_b ≡ token_b_amount
  pub liquidity : IsRoot (token_a_amount * token_b_amount) stored.liquidity_pool_supply
  pub is_active : stored.active ≡ true
  pub two_tokens : stored.definition_token_a_id ≢ stored.definition_token_b_id
  pub pool_pda :
      compute_pool_pda host.sha256 amm_program_id stored.definition_token_a_id
        stored.definition_token_b_id
      ≡ ok pool.account_id
  pub vault_a_pda :
      stored.vault_a_id
      ≡ compute_vault_pda host.sha256 amm_program_id pool.account_id stored.definition_token_a_id
  pub vault_b_pda :
      stored.vault_b_id
      ≡ compute_vault_pda host.sha256 amm_program_id pool.account_id stored.definition_token_b_id
  pub lp_pda :
      stored.liquidity_pool_id
      ≡ compute_liquidity_token_pda host.sha256 amm_program_id pool.account_id

module _ (host : AmmHost) (amm_program_id : ProgramId) (pool : AccountWithMetadata)
    (a : Parties) where
  record Addressed (token_a token_b : AccountId) : Type 0 where
    pool_pda : compute_pool_pda host.sha256 amm_program_id token_a token_b ≡ ok pool.account_id
    vault_a :
        a.vault_a.account_id ≡ compute_vault_pda host.sha256 amm_program_id pool.account_id token_a
    vault_b :
        a.vault_b.account_id ≡ compute_vault_pda host.sha256 amm_program_id pool.account_id token_b
    lp :
        a.pool_definition_lp.account_id
        ≡ compute_liquidity_token_pda host.sha256 amm_program_id pool.account_id

  validate_addresses-Addressed :
      (token_a token_b : AccountId)
      → validate_addresses host amm_program_id pool a token_a token_b ≡ ok tt
      → Addressed token_a token_b
  unfolding validate_addresses
  validate_addresses-Addressed token_a token_b h =
      let (pda, e, h1) =
        >>=-eq-ok (compute_pool_pda host.sha256 amm_program_id token_a token_b) _ h in
      let va = compute_vault_pda host.sha256 amm_program_id pool.account_id token_a in
      let vb = compute_vault_pda host.sha256 amm_program_id pool.account_id token_b in
      let lp = compute_liquidity_token_pda host.sha256 amm_program_id pool.account_id in
      let same : pool.account_id ≡ pda =
        (bytes_eq_iff pool.account_id pda).0 (ground (arith, h1)) in
      record {
        pool_pda = rw same e;
        vault_a = (bytes_eq_iff a.vault_a.account_id va).0 (ground (arith, h1));
        vault_b = (bytes_eq_iff a.vault_b.account_id vb).0 (ground (arith, h1));
        lp = (bytes_eq_iff a.pool_definition_lp.account_id lp).0 (ground (arith, h1));
      }

  -- A pool that is opened is active, holds the two amounts for two different tokens, has the floor of the
  -- square root of their product as its liquidity, and its own address, those of its vaults and that of
  -- its liquidity token are the ones that derive from the two tokens, if borsh reads back the pools that
  -- it has written and the product of the amounts is a u128 value.
  pub new_definition-Opened :
      (token_a_amount token_b_amount : ℕ) {result : List AccountPostState × List ChainedCall}
      → ((q : PoolDefinition) → host.read_pool (host.pool_bytes q) ≡ some q)
      → token_a_amount * token_b_amount < u128_mod
      → new_definition host pool a token_a_amount token_b_amount amm_program_id ≡ ok result
      → Opened host amm_program_id pool a token_a_amount token_b_amount result.0
  unfolding new_definition initial_pool new_claimed_if_default try_into_data
  new_definition-Opened token_a_amount token_b_amount back fits h =
      let (token_a, e1, h1) = >>=-eq-ok (holding_definition host a.user_holding_a) _ h in
      let (token_b, e2, h2) = >>=-eq-ok (holding_definition host a.user_holding_b) _ h1 in
      let (owners, h3) =
        ensure-eq-ok
          (bytes_eq a.user_holding_b.account.program_owner a.user_holding_a.account.program_owner)
          wrong_token_program _ h2 in
      let (differ, h4) = ensure-eq-ok (not (bytes_eq token_a token_b)) same_token _ h3 in
      let (addresses, e5, h5) =
        >>=-eq-ok (validate_addresses host amm_program_id pool a token_a token_b) _ h4 in
      let (old, e6, h6) = >>=-eq-ok (old_pool host pool) _ h5 in
      let (inactive, h7) = ensure-eq-ok (not old.active) active_pool _ h6 in
      let p = initial_pool a token_a token_b token_a_amount token_b_amount in
      let addressed = validate_addresses-Addressed token_a token_b e5 in
      let exact : wrapping_mul token_a_amount token_b_amount ≡ token_a_amount * token_b_amount =
        omega (arith, fits) in
      record {
        stored = p;
        is_stored = grind (arith, h7, back p);
        in_a = refl;
        in_b = refl;
        liquidity = rw exact (isqrt-IsRoot (token_a_amount * token_b_amount) fits);
        is_active = refl;
        two_tokens = λ same. ground (arith, differ, (bytes_eq_iff token_a token_b).1 same);
        pool_pda = addressed.pool_pda;
        vault_a_pda = addressed.vault_a;
        vault_b_pda = addressed.vault_b;
        lp_pda = addressed.lp;
      }
