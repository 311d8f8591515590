-- ===== src/Amm/Liquidity/Deposits.antt =====
-- What `add_liquidity` promises.
use native.Mathlib.Nat.{mul-le-mul_right}
use lp_0002_private_multisig.Prelude.{
  ℕ, ◌+◌, ◌*◌, ◌/◌, ◌≤◌, ◌<◌, ◌≡◌, ◌≢◌, some, List, [], ◌∷◌, ok, >>=-eq-ok, arith,
}
use lp_0002_private_multisig.Core.Account.{AccountWithMetadata, u128_mod}
use lp_0002_private_multisig.Core.Program.{AccountPostState, ChainedCall}
use lp_0002_private_multisig.Amm.Pool.{
  PoolDefinition, AmmHost, wrapping_add, wrapping_mul, compute_liquidity_token_pda_seed,
}
use lp_0002_private_multisig.Amm.Swap.{create_swap_post_states}
use lp_0002_private_multisig.Amm.Swap.Reserves.{pool_after, create_swap_post_states_lem}
use lp_0002_private_multisig.Amm.Liquidity.{
  Parties, parties_list, Deposit, deposit_of, pool_with_deposit, validate_deposit, add_liquidity,
  deposit_calls, token_call,
}
use lp_0002_private_multisig.Amm.Liquidity.Shares.{
  SharesKeep, exact_mul, call_of, with_authorization,
}
use lp_0002_private_multisig.Token.Types.{Instruction}

-- The products and the sums of a deposit of at most these amounts are u128 values.
pub record DepositFits (p : PoolDefinition) (max_amount_a max_amount_b : ℕ) : Type 0 where
  pub reserve_a_product : p.reserve_a * max_amount_b < u128_mod
  pub reserve_b_product : p.reserve_b * max_amount_a < u128_mod
  pub supply_product_a : p.liquidity_pool_supply * (max_amount_a + 1) < u128_mod
  pub supply_product_b : p.liquidity_pool_supply * (max_amount_b + 1) < u128_mod
  pub reserve_a_sum : p.reserve_a + max_amount_a < u128_mod
  pub reserve_b_sum : p.reserve_b + max_amount_b < u128_mod

-- The liquidity for an amount: not more than its part of the reserve.
share_lem :
    (supply reserve amount delta : ℕ)
    → delta ≤ supply * amount / reserve
    → reserve * (supply + delta) ≤ (reserve + amount) * supply
share_lem supply reserve amount delta h = omega (arith, mul-le-mul_right reserve h)

minted_le :
    (supply reserve amount bound delta : ℕ)
    → reserve ≢ 0
    → amount ≤ bound
    → delta ≤ supply * amount / reserve
    → delta ≤ supply * bound
minted_le supply reserve amount bound delta pos le h =
    let one : 1 ≤ reserve = omega (arith, pos) in
    omega
      (arith, mul-le-mul_right delta one, mul-le-mul_right supply le, mul-le-mul_right reserve h)

-- What a deposit that is accepted is.
record IsDeposit (p : PoolDefinition) (least max_amount_a max_amount_b : ℕ) (d : Deposit)
    : Type 0 where
  at_most_a : d.actual_amount_a ≤ max_amount_a
  at_most_b : d.actual_amount_b ≤ max_amount_b
  at_least : least ≤ d.delta_lp
  share_a : d.delta_lp ≤ wrapping_mul p.liquidity_pool_supply d.actual_amount_a / p.reserve_a
  share_b : d.delta_lp ≤ wrapping_mul p.liquidity_pool_supply d.actual_amount_b / p.reserve_b

deposit_of-IsDeposit :
    (p : PoolDefinition) (least max_amount_a max_amount_b : ℕ) {d : Deposit}
    → deposit_of p least max_amount_a max_amount_b ≡ ok d
    → IsDeposit p least max_amount_a max_amount_b d
unfolding deposit_of
deposit_of-IsDeposit p least max_amount_a max_amount_b h = record {
  at_most_a = ground (arith, h);
  at_most_b = ground (arith, h);
  at_least = ground (arith, h);
  share_a = ground (arith, h);
  share_b = ground (arith, h);
}

validate_deposit-reserves :
    (host : AmmHost) (p : PoolDefinition) (a : Parties) (max_amount_a max_amount_b : ℕ)
    → validate_deposit host p a max_amount_a max_amount_b ≡ ok tt
    → (p.reserve_a ≢ 0) × (p.reserve_b ≢ 0)
unfolding validate_deposit
validate_deposit-reserves host p a max_amount_a max_amount_b h =
    (ground (arith, h), ground (arith, h))

-- The share that a deposit mints for one of the tokens, where nothing wraps.
one_share :
    (supply reserve amount bound delta : ℕ)
    → reserve ≢ 0
    → amount ≤ bound
    → supply * (bound + 1) < u128_mod
    → reserve + bound < u128_mod
    → delta ≤ wrapping_mul supply amount / reserve
    → (wrapping_add supply delta ≡ supply + delta)
      × (reserve * wrapping_add supply delta ≤ wrapping_add reserve amount * supply)
one_share supply reserve amount bound delta pos le product_fits sum_fits h =
    let below : supply * amount < u128_mod =
      omega (arith, mul-le-mul_right supply le, product_fits) in
    let share : delta ≤ supply * amount / reserve = rw (exact_mul supply amount below) at h in
    let minted = minted_le supply reserve amount bound delta pos le share in
    let supply_sum : wrapping_add supply delta ≡ supply + delta =
      omega (arith, minted, product_fits) in
    let reserve_sum : wrapping_add reserve amount ≡ reserve + amount =
      omega (arith, le, sum_fits) in
    (supply_sum, rw (supply_sum, reserve_sum) (share_lem supply reserve amount delta share))

-- What `add_liquidity` promises: the stored pool, whose shares keep their value; the amounts by which
-- its reserves and its supply grow, within the limits of the user; and the calls that move exactly these
-- amounts: they mint the liquidity for the user, and transfer the tokens from the user to the vaults.
pub record Added (host : AmmHost) (pool : AccountWithMetadata) (a : Parties) (p : PoolDefinition)
    (min_amount_liquidity max_amount_a max_amount_b : ℕ)
    (result : List AccountPostState × List ChainedCall) : Type 0 where
  pub stored : PoolDefinition
  pub is_stored : pool_after host result.0 ≡ some stored
  pub shares : SharesKeep p stored
  pub minted : ℕ
  pub paid_a : ℕ
  pub paid_b : ℕ
  pub supply_grows : stored.liquidity_pool_supply ≡ p.liquidity_pool_supply + minted
  pub reserve_a_grows : stored.reserve_a ≡ p.reserve_a + paid_a
  pub reserve_b_grows : stored.reserve_b ≡ p.reserve_b + paid_b
  pub enough_minted : min_amount_liquidity ≤ minted
  pub within_a : paid_a ≤ max_amount_a
  pub within_b : paid_b ≤ max_amount_b
  pub calls :
      let token = a.user_holding_a.account.program_owner in
      result.1
      ≡ call_of host token
          (with_authorization a.pool_definition_lp)
          a.user_holding_lp
          (Instruction.mint minted)
          (compute_liquidity_token_pda_seed host.sha256 pool.account_id ∷ [])
        ∷ call_of host token a.user_holding_b a.vault_b (Instruction.transfer paid_b) []
        ∷ call_of host token a.user_holding_a a.vault_a (Instruction.transfer paid_a) []
        ∷ []

module _ (host : AmmHost) (pool : AccountWithMetadata) (a : Parties) (p : PoolDefinition) where
  -- Adding liquidity never lowers what a share of the pool is worth in either token. The reserves grow
  -- by at most the maximal amounts, and the supply by at least the minimal liquidity, and the three
  -- calls of the token program transfer exactly what the reserves grow by from the user's holdings to
  -- the vaults, and mint exactly what the supply grows by into the user's. Borsh reads back the pools
  -- that it has written, and the products and sums of the deposit are u128 values.
  pub add_liquidity-Added :
      (min_amount_liquidity max_amount_a max_amount_b : ℕ)
      {result : List AccountPostState × List ChainedCall}
      → ((q : PoolDefinition) → host.read_pool (host.pool_bytes q) ≡ some q)
      → host.read_pool pool.account.data_bytes ≡ some p
      → DepositFits p max_amount_a max_amount_b
      → add_liquidity host pool a min_amount_liquidity max_amount_a max_amount_b ≡ ok result
      → Added host pool a p min_amount_liquidity max_amount_a max_amount_b result
  unfolding add_liquidity pool_with_deposit deposit_calls token_call
  add_liquidity-Added least max_amount_a max_amount_b back is_pool fits h =
      let h0 = rw is_pool at h in
      let (checked, e1, h1) =
        >>=-eq-ok (validate_deposit host p a max_amount_a max_amount_b) _ h0 in
      let (d, e2, h2) = >>=-eq-ok (deposit_of p least max_amount_a max_amount_b) _ h1 in
      let next = pool_with_deposit p d in
      let (posts, e3, h3) =
        >>=-eq-ok (create_swap_post_states host pool next (parties_list a)) _ h2 in
      let (pos_a, pos_b) = validate_deposit-reserves host p a max_amount_a max_amount_b e1 in
      let facts = deposit_of-IsDeposit p least max_amount_a max_amount_b e2 in
      let (sum, share_a) =
        one_share p.liquidity_pool_supply p.reserve_a d.actual_amount_a max_amount_a d.delta_lp
          pos_a facts.at_most_a fits.supply_product_a fits.reserve_a_sum facts.share_a in
      let (_, share_b) =
        one_share p.liquidity_pool_supply p.reserve_b d.actual_amount_b max_amount_b d.delta_lp
          pos_b facts.at_most_b fits.supply_product_b fits.reserve_b_sum facts.share_b in
      let stored = create_swap_post_states_lem host pool next (parties_list a) back e3 in
      record {
        stored = next;
        is_stored = ground (arith, h3, stored);
        shares = record { in_a = share_a; in_b = share_b };
        minted = d.delta_lp;
        paid_a = d.actual_amount_a;
        paid_b = d.actual_amount_b;
        supply_grows = sum;
        reserve_a_grows = omega (arith, facts.at_most_a, fits.reserve_a_sum);
        reserve_b_grows = omega (arith, facts.at_most_b, fits.reserve_b_sum);
        enough_minted = facts.at_least;
        within_a = facts.at_most_a;
        within_b = facts.at_most_b;
        calls = ground (arith, h3);
      }
