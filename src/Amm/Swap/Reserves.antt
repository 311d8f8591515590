-- ===== src/Amm/Swap/Reserves.antt =====
-- The reserves that a swap stores: their product never falls.
use lp_0002_private_multisig.Prelude.{
  ℕ, ◌+◌, ◌-◌, ◌*◌, ◌≤◌, ◌<◌, ◌≡◌, refl, Option, none, some, List, [], ◌∷◌, bytes_eq, ok, >>=-eq-ok,
  Bool-cases, inl, inr, arith,
}
use lp_0002_private_multisig.Core.Account.{AccountId, AccountWithMetadata, u128_mod, try_into_data}
use lp_0002_private_multisig.Core.Program.{AccountPostState, ChainedCall}
use lp_0002_private_multisig.Amm.Pool.{PoolDefinition, AmmHost, wrapping_add, wrapping_sub}
use lp_0002_private_multisig.Amm.Swap.{
  next_pool, exact_input, exact_output, Price, create_swap_post_states, swap_calls, swap_a, swap_b,
  swap_at, swap_exact_input, swap_exact_output, validate_swap_setup,
}
use lp_0002_private_multisig.Amm.Swap.Product.{
  IsFair, floor_price, ceil_price, exact_input_inv, exact_output_inv,
}

-- The pool of the first post state.
abbrev pub pool_after : AmmHost → List AccountPostState → Option PoolDefinition
pool_after host [] = none
pool_after host (post ∷ posts) = host.read_pool post.account.data_bytes

-- The reserves after a swap, as u128 values: nothing wraps.
deposited : (p d : ℕ) → p + d < u128_mod → wrapping_sub (wrapping_add p d) 0 ≡ p + d
deposited p d fits = omega (arith, fits)

withdrawn : (p w : ℕ) → p < u128_mod → w ≤ p → wrapping_sub (wrapping_add p 0) w ≡ p - w
withdrawn p w fits le = omega (arith, fits, le)

-- Both reserves are u128 values, also with the deposit.
abbrev pub Fits : PoolDefinition → ℕ → Type 0
Fits p deposit = (p.reserve_a + deposit < u128_mod) × (p.reserve_b + deposit < u128_mod)

-- A price that is fair and takes at most `bound`.
abbrev FairPrice : Price → (bound from to : ℕ) → Type 0
FairPrice price bound from to =
    (amounts : ℕ × ℕ)
    → price from to ≡ ok amounts
    → (amounts.0 ≤ bound) × IsFair from to amounts.0 amounts.1

exact_input-FairPrice :
    (swap_amount_in min_amount_out from to : ℕ)
    → from + swap_amount_in < u128_mod
    → FairPrice (exact_input swap_amount_in min_amount_out) swap_amount_in from to
exact_input-FairPrice swap_amount_in min_amount_out from to fits amounts e =
    let (same, pos) = exact_input_inv swap_amount_in min_amount_out from to e in
    let exact : wrapping_add from swap_amount_in ≡ from + swap_amount_in = omega (arith, fits) in
    let fair = floor_price from swap_amount_in to (rw exact at pos) in
    rw (same, exact) (omega arith, fair)

exact_output-FairPrice :
    (exact_amount_out max_amount_in from to : ℕ)
    → FairPrice (exact_output exact_amount_out max_amount_in) max_amount_in from to
exact_output-FairPrice exact_amount_out max_amount_in from to amounts e =
    let (same, lt, le) = exact_output_inv exact_amount_out max_amount_in from to e in
    (le, rw same (ceil_price from to exact_amount_out lt))

pub create_swap_post_states_lem :
    (host : AmmHost) (pool : AccountWithMetadata) (next : PoolDefinition)
    (others : List AccountWithMetadata) {posts : List AccountPostState}
    → ((q : PoolDefinition) → host.read_pool (host.pool_bytes q) ≡ some q)
    → create_swap_post_states host pool next others ≡ ok posts
    → pool_after host posts ≡ some next
unfolding create_swap_post_states try_into_data
create_swap_post_states_lem host pool next others back h = grind (arith, h, back next)

module _ (host : AmmHost) (pool vault_a vault_b user_holding_a user_holding_b : AccountWithMetadata)
    (token_in_id : AccountId) (p : PoolDefinition) where
  -- The pool that an output stores has a product of reserves that is at least that of `p`, and the
  -- same liquidity.
  abbrev pub Grows : List AccountPostState → Type 0
  Grows posts =
      (q : PoolDefinition) × (pool_after host posts ≡ some q)
      × (p.reserve_a * p.reserve_b ≤ q.reserve_a * q.reserve_b)
      × (q.liquidity_pool_supply ≡ p.liquidity_pool_supply)

  swap_a-Grows :
      (price : Price) (bound : ℕ) {result : List AccountPostState × List ChainedCall}
      → ((q : PoolDefinition) → host.read_pool (host.pool_bytes q) ≡ some q)
      → FairPrice price bound p.reserve_a p.reserve_b
      → Fits p bound
      → swap_a host price pool vault_a vault_b user_holding_a user_holding_b p ≡ ok result
      → Grows result.0
  unfolding swap_a next_pool
  swap_a-Grows price bound back fair fits h =
      let ((deposit, withdraw), e1, h1) = >>=-eq-ok (price p.reserve_a p.reserve_b) _ h in
      let (calls, e2, h2) =
        >>=-eq-ok
          (swap_calls host user_holding_a vault_a vault_b user_holding_b deposit withdraw
            pool.account_id)
          _ h1 in
      let next = next_pool p deposit 0 0 withdraw in
      let others = vault_a ∷ vault_b ∷ user_holding_a ∷ user_holding_b ∷ [] in
      let (posts, e3, h3) = >>=-eq-ok (create_swap_post_states host pool next others) _ h2 in
      let (at_most, (le, product)) = fair (deposit, withdraw) e1 in
      let in_pool = deposited p.reserve_a deposit (omega (arith, at_most, fits.0)) in
      let out_of_pool = withdrawn p.reserve_b withdraw (omega (arith, fits.1)) le in
      let stored = create_swap_post_states_lem host pool next others back e3 in
      (next, ground (arith, h3, stored), rw (in_pool, out_of_pool) product, refl)

  swap_b-Grows :
      (price : Price) (bound : ℕ) {result : List AccountPostState × List ChainedCall}
      → ((q : PoolDefinition) → host.read_pool (host.pool_bytes q) ≡ some q)
      → FairPrice price bound p.reserve_b p.reserve_a
      → Fits p bound
      → swap_b host price pool vault_a vault_b user_holding_a user_holding_b p ≡ ok result
      → Grows result.0
  unfolding swap_b next_pool
  swap_b-Grows price bound back fair fits h =
      let ((deposit, withdraw), e1, h1) = >>=-eq-ok (price p.reserve_b p.reserve_a) _ h in
      let (calls, e2, h2) =
        >>=-eq-ok
          (swap_calls host user_holding_b vault_b vault_a user_holding_a deposit withdraw
            pool.account_id)
          _ h1 in
      let next = next_pool p 0 withdraw deposit 0 in
      let others = vault_a ∷ vault_b ∷ user_holding_a ∷ user_holding_b ∷ [] in
      let (posts, e3, h3) = >>=-eq-ok (create_swap_post_states host pool next others) _ h2 in
      let (at_most, (le, product)) = fair (deposit, withdraw) e1 in
      let in_pool = deposited p.reserve_b deposit (omega (arith, at_most, fits.1)) in
      let out_of_pool = withdrawn p.reserve_a withdraw (omega (arith, fits.0)) le in
      let stored = create_swap_post_states_lem host pool next others back e3 in
      (next, ground (arith, h3, stored), rw (in_pool, out_of_pool) (omega (arith, product)), refl)

  swap_at-Grows :
      (price : Price) (bound : ℕ) {result : List AccountPostState × List ChainedCall}
      → ((q : PoolDefinition) → host.read_pool (host.pool_bytes q) ≡ some q)
      → host.read_pool pool.account.data_bytes ≡ some p
      → FairPrice price bound p.reserve_a p.reserve_b
      → FairPrice price bound p.reserve_b p.reserve_a
      → Fits p bound
      → swap_at host price pool vault_a vault_b user_holding_a user_holding_b token_in_id
        ≡ ok result
      → Grows result.0
  unfolding swap_at validate_swap_setup
  swap_at-Grows price bound {result} back is_pool fair_a fair_b fits h =
      let (r, e1, h1) = >>=-eq-ok (validate_swap_setup host pool vault_a vault_b) _ h in
      let same : r ≡ p = ground (arith, e1, is_pool) in
      elim (Bool-cases (bytes_eq token_in_id p.definition_token_a_id)) [
        | inl a ↦
            swap_a-Grows price bound {result = result} back fair_a fits
              (ground (arith, h1, a, same))
        | inr other ↦ elim (Bool-cases (bytes_eq token_in_id p.definition_token_b_id)) [
          | inl b ↦
              swap_b-Grows price bound {result = result} back fair_b fits
                (ground (arith, h1, b, other, same))
          | inr unknown ↦ absurd (ground (arith, h1, other, unknown, same))
        ]
      ]

  -- A swap with an exact input never lowers the product of the reserves and keeps the liquidity, if borsh reads back the pools
  -- that it has written and the reserves with the input are u128 values.
  pub swap_exact_input-Grows :
      (swap_amount_in min_amount_out : ℕ) {result : List AccountPostState × List ChainedCall}
      → ((q : PoolDefinition) → host.read_pool (host.pool_bytes q) ≡ some q)
      → host.read_pool pool.account.data_bytes ≡ some p
      → Fits p swap_amount_in
      → swap_exact_input host pool vault_a vault_b user_holding_a user_holding_b swap_amount_in
          min_amount_out token_in_id
        ≡ ok result
      → Grows result.0
  swap_exact_input-Grows swap_amount_in min_amount_out back is_pool fits h =
      swap_at-Grows (exact_input swap_amount_in min_amount_out) swap_amount_in back is_pool
        (exact_input-FairPrice swap_amount_in min_amount_out p.reserve_a p.reserve_b fits.0)
        (exact_input-FairPrice swap_amount_in min_amount_out p.reserve_b p.reserve_a fits.1) fits h

  -- A swap with an exact output never lowers the product of the reserves and keeps the liquidity, if borsh reads back the pools
  -- that it has written and the reserves with the largest allowed input are u128 values.
  pub swap_exact_output-Grows :
      (exact_amount_out max_amount_in : ℕ) {result : List AccountPostState × List ChainedCall}
      → ((q : PoolDefinition) → host.read_pool (host.pool_bytes q) ≡ some q)
      → host.read_pool pool.account.data_bytes ≡ some p
      → Fits p max_amount_in
      → swap_exact_output host pool vault_a vault_b user_holding_a user_holding_b exact_amount_out
          max_amount_in token_in_id
        ≡ ok result
      → Grows result.0
  swap_exact_output-Grows exact_amount_out max_amount_in back is_pool fits h =
      swap_at-Grows (exact_output exact_amount_out max_amount_in) max_amount_in back is_pool
        (exact_output-FairPrice exact_amount_out max_amount_in p.reserve_a p.reserve_b)
        (exact_output-FairPrice exact_amount_out max_amount_in p.reserve_b p.reserve_a) fits h
