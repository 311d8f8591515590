-- ===== src/Amm/Liquidity/Withdrawals.antt =====
-- What `remove_liquidity` promises.
use native.Mathlib.Nat.{mul-le-mul_left, le_of_mul-le-mul_right}
use lp_0002_private_multisig.Prelude.{
  ℕ, ◌+◌, ◌-◌, ◌*◌, ◌/◌, ◌≤◌, ◌<◌, ◌≡◌, ◌≢◌, refl, sym, ◌∙◌, some, List, [], ◌∷◌, not, ◌==◌, ok,
  >>=-eq-ok, arith,
}
use lp_0002_private_multisig.Core.Account.{AccountWithMetadata, u128_mod}
use lp_0002_private_multisig.Core.Program.{AccountPostState, ChainedCall}
use lp_0002_private_multisig.Amm.Pool.{
  PoolDefinition, AmmHost, wrapping_sub, wrapping_mul, compute_liquidity_token_pda_seed,
  compute_vault_pda_seed,
}
use lp_0002_private_multisig.Amm.Swap.{create_swap_post_states}
use lp_0002_private_multisig.Amm.Swap.Reserves.{pool_after, create_swap_post_states_lem}
use lp_0002_private_multisig.Amm.Liquidity.{
  Parties, parties_list, Withdrawal, withdrawal_of, pool_with_withdrawal, validate_withdrawal,
  remove_liquidity, withdrawal_calls, token_call,
}
use lp_0002_private_multisig.Amm.Liquidity.Shares.{
  SharesKeep, exact_mul, call_of, with_authorization,
}
use lp_0002_private_multisig.Token.Types.{Instruction}

withdrawal_of_inv :
    (p : PoolDefinition) (amount min_amount_a min_amount_b : ℕ) {w : Withdrawal}
    → withdrawal_of p amount min_amount_a min_amount_b ≡ ok w
    → (p.liquidity_pool_supply ≢ 0)
      × (min_amount_a ≤ w.withdraw_amount_a)
      × (min_amount_b ≤ w.withdraw_amount_b)
      × (w.withdraw_amount_a ≡ wrapping_mul p.reserve_a amount / p.liquidity_pool_supply)
      × (w.withdraw_amount_b ≡ wrapping_mul p.reserve_b amount / p.liquidity_pool_supply)
      × (w.delta_lp ≡ wrapping_mul p.liquidity_pool_supply amount / p.liquidity_pool_supply)
unfolding withdrawal_of
withdrawal_of_inv p amount min_amount_a min_amount_b h = (
  ground (arith, h),
  ground (arith, h),
  ground (arith, h),
  ground (arith, h),
  ground (arith, h),
  ground (arith, h),
)

-- The products of a withdrawal are u128 values, and so are the reserves and the supply.
pub record WithdrawalFits (p : PoolDefinition) (amount : ℕ) : Type 0 where
  pub amount_in_supply : amount ≤ p.liquidity_pool_supply
  pub supply_product : p.liquidity_pool_supply * amount < u128_mod
  pub reserve_a_product : p.reserve_a * amount < u128_mod
  pub reserve_b_product : p.reserve_b * amount < u128_mod
  pub supply_bound : p.liquidity_pool_supply < u128_mod
  pub reserve_a_bound : p.reserve_a < u128_mod
  pub reserve_b_bound : p.reserve_b < u128_mod

-- The reserve that is left covers the shares that are left.
left_lem :
    (rest part left amount : ℕ)
    → part * (left + amount) ≤ (rest + part) * amount
    → (rest + part) * left ≤ rest * (left + amount)
left_lem rest part left amount h = omega (arith, h)

-- The division leaves less than one unit too much in the reserve.
rounding_lem :
    (rest part left amount : ℕ)
    → (rest + part) * amount < (part + 1) * (left + amount)
    → rest * (left + amount) < (rest + part) * left + (left + amount)
rounding_lem rest part left amount h = omega (arith, h)

whole_lem :
    (supply amount : ℕ)
    → supply ≢ 0
    → supply * amount < u128_mod
    → wrapping_mul supply amount / supply ≡ amount
whole_lem supply amount pos fits = rw (exact_mul supply amount fits) (grind (arith, pos))

-- The part of one reserve that a withdrawal takes, where nothing wraps: at most its share.
one_part :
    (supply reserve amount : ℕ)
    → supply ≢ 0
    → amount ≤ supply
    → reserve * amount < u128_mod
    → reserve < u128_mod
    → let part = wrapping_mul reserve amount / supply in
      (part ≤ reserve)
      × (wrapping_sub reserve part ≡ reserve - part)
      × (reserve * (supply - amount) ≤ wrapping_sub reserve part * supply)
      × (wrapping_sub reserve part * supply < reserve * (supply - amount) + supply)
one_part supply reserve amount pos le product_fits fits =
    let part = wrapping_mul reserve amount / supply in
    let product : part * supply ≤ reserve * amount =
      rw (exact_mul reserve amount product_fits) (omega arith) in
    let nearly : reserve * amount < (part + 1) * supply =
      rw (exact_mul reserve amount product_fits) (omega (arith, pos)) in
    let all : part * supply ≤ reserve * supply =
      omega (arith, product, mul-le-mul_left reserve le) in
    let below : part ≤ reserve = le_of_mul-le-mul_right all (omega (arith, pos)) in
    let exact : wrapping_sub reserve part ≡ reserve - part = omega (arith, below, fits) in
    let split_reserve : reserve - part + part ≡ reserve = omega (arith, below) in
    let split_supply : supply - amount + amount ≡ supply = omega (arith, le) in
    let covered =
      left_lem (reserve - part) part (supply - amount) amount
        (rw (split_reserve, split_supply) product) in
    let rounded =
      rounding_lem (reserve - part) part (supply - amount) amount
        (rw (split_reserve, split_supply) nearly) in
    (
      below,
      exact,
      rw (split_reserve, split_supply, sym exact) at covered,
      rw (split_reserve, split_supply, sym exact) at rounded,
    )

-- What `remove_liquidity` promises: the stored pool, whose shares keep their value and gain less than one
-- unit of each token; the amounts that leave the reserves, at least the minimal ones; whether the pool is
-- still active; and the calls that move exactly these amounts: they burn the liquidity of the user, and
-- transfer the tokens from the vaults to the user.
pub record Removed (host : AmmHost) (pool : AccountWithMetadata) (a : Parties) (p : PoolDefinition)
    (amount min_amount_a min_amount_b : ℕ) (result : List AccountPostState × List ChainedCall)
    : Type 0 where
  pub stored : PoolDefinition
  pub is_stored : pool_after host result.0 ≡ some stored
  pub shares : SharesKeep p stored
  pub rounding_a :
      stored.reserve_a * p.liquidity_pool_supply
      < p.reserve_a * stored.liquidity_pool_supply + p.liquidity_pool_supply
  pub rounding_b :
      stored.reserve_b * p.liquidity_pool_supply
      < p.reserve_b * stored.liquidity_pool_supply + p.liquidity_pool_supply
  pub received_a : ℕ
  pub received_b : ℕ
  pub burnt : stored.liquidity_pool_supply + amount ≡ p.liquidity_pool_supply
  pub reserve_a_falls : stored.reserve_a + received_a ≡ p.reserve_a
  pub reserve_b_falls : stored.reserve_b + received_b ≡ p.reserve_b
  pub enough_a : min_amount_a ≤ received_a
  pub enough_b : min_amount_b ≤ received_b
  pub activity : stored.active ≡ not (stored.liquidity_pool_supply == 0)
  pub calls :
      let token = a.user_holding_a.account.program_owner in
      result.1
      ≡ call_of host token
          (with_authorization a.pool_definition_lp)
          a.user_holding_lp
          (Instruction.burn amount)
          (compute_liquidity_token_pda_seed host.sha256 pool.account_id ∷ [])
        ∷ call_of host token
            (with_authorization a.vault_b)
            a.user_holding_b
            (Instruction.transfer received_b)
            (compute_vault_pda_seed host.sha256 pool.account_id p.definition_token_b_id ∷ [])
        ∷ call_of host token
            (with_authorization a.vault_a)
            a.user_holding_a
            (Instruction.transfer received_a)
            (compute_vault_pda_seed host.sha256 pool.account_id p.definition_token_a_id ∷ [])
        ∷ []

module _ (host : AmmHost) (pool : AccountWithMetadata) (a : Parties) (p : PoolDefinition) where
  -- Removing liquidity lowers the supply by the amount, never lowers what a share of the pool is worth
  -- in either token and raises it by less than one unit in all, and leaves the pool active exactly if
  -- some liquidity is left. The reserves fall by at least the minimal amounts, and the three calls of
  -- the token program transfer exactly what the reserves fall by from the vaults to the user's holdings,
  -- and burn exactly the amount from the user's. Borsh reads back the pools that it has written, the
  -- amount is not more than the supply, and the products are u128 values.
  pub remove_liquidity-Removed :
      (amount min_amount_a min_amount_b : ℕ) {result : List AccountPostState × List ChainedCall}
      → ((q : PoolDefinition) → host.read_pool (host.pool_bytes q) ≡ some q)
      → host.read_pool pool.account.data_bytes ≡ some p
      → WithdrawalFits p amount
      → remove_liquidity host pool a amount min_amount_a min_amount_b ≡ ok result
      → Removed host pool a p amount min_amount_a min_amount_b result
  unfolding remove_liquidity pool_with_withdrawal withdrawal_calls token_call
  remove_liquidity-Removed amount min_amount_a min_amount_b back is_pool fits h =
      let h0 = rw is_pool at h in
      let (checked, e1, h1) =
        >>=-eq-ok (validate_withdrawal host p a min_amount_a min_amount_b) _ h0 in
      let (w, e2, h2) = >>=-eq-ok (withdrawal_of p amount min_amount_a min_amount_b) _ h1 in
      let next = pool_with_withdrawal p w in
      let (posts, e3, h3) =
        >>=-eq-ok (create_swap_post_states host pool next (parties_list a)) _ h2 in
      let (pos, least_a, least_b, part_a, part_b, burnt) =
        withdrawal_of_inv p amount min_amount_a min_amount_b e2 in
      let supply = p.liquidity_pool_supply in
      let delta : w.delta_lp ≡ amount = burnt ∙ whole_lem supply amount pos fits.supply_product in
      let left : wrapping_sub supply w.delta_lp ≡ supply - amount =
        rw delta (omega (arith, fits.amount_in_supply, fits.supply_bound)) in
      let (below_a, exact_a, share_a, rounded_a) =
        one_part supply p.reserve_a amount pos fits.amount_in_supply fits.reserve_a_product
          fits.reserve_a_bound in
      let (below_b, exact_b, share_b, rounded_b) =
        one_part supply p.reserve_b amount pos fits.amount_in_supply fits.reserve_b_product
          fits.reserve_b_bound in
      let stored = create_swap_post_states_lem host pool next (parties_list a) back e3 in
      record {
        stored = next;
        is_stored = ground (arith, h3, stored);
        shares = record { in_a = rw (left, part_a) share_a; in_b = rw (left, part_b) share_b };
        rounding_a = rw (left, part_a) rounded_a;
        rounding_b = rw (left, part_b) rounded_b;
        received_a = w.withdraw_amount_a;
        received_b = w.withdraw_amount_b;
        burnt = rw left (omega (arith, fits.amount_in_supply));
        reserve_a_falls = rw (part_a, exact_a) (omega (arith, below_a));
        reserve_b_falls = rw (part_b, exact_b) (omega (arith, below_b));
        enough_a = least_a;
        enough_b = least_b;
        activity = refl;
        calls = ground (arith, h3, delta);
      }
