-- ===== src/Amm/Instructions/Value.antt =====
-- What a share of a pool is worth, over any sequence of instructions.
use native.Mathlib.Nat.{mul-le-mul, mul-le-mul_right, le_of_mul-le-mul_right}
use lp_0002_private_multisig.Prelude.{
  ℕ, ◌*◌, ◌≤◌, ◌<◌, ◌≡◌, ◌≢◌, refl, ap, Option, none, some, List, [], true, not, ◌==◌, ok,
  >>=-eq-ok, ensure-eq-ok, Bool-cases, inl, inr, arith,
}
use lp_0002_private_multisig.Core.Account.{
  Account, AccountWithMetadata, ProgramId, default_account, account_eq_iff,
}
use lp_0002_private_multisig.Core.Program.{AccountPostState, ChainedCall}
use lp_0002_private_multisig.Amm.Pool.{PoolDefinition, AmmHost, AmmInstruction, zero_argument}
use lp_0002_private_multisig.Amm.Swap.Reserves.{
  pool_after, Fits, swap_exact_input-Grows, swap_exact_output-Grows,
}
use lp_0002_private_multisig.Amm.Liquidity.{Parties}
use lp_0002_private_multisig.Amm.Liquidity.Shares.{SharesKeep}
use lp_0002_private_multisig.Amm.Liquidity.Deposits.{DepositFits, add_liquidity-Added}
use lp_0002_private_multisig.Amm.Liquidity.Withdrawals.{WithdrawalFits, remove_liquidity-Removed}
use lp_0002_private_multisig.Amm.Creation.{new_definition, old_pool, is_default}
use lp_0002_private_multisig.Amm.Instructions.{run_at, six_parties, four_parties}

-- The numbers of an instruction at a pool are u128 values, also those in between.
abbrev pub InRange : AmmInstruction → PoolDefinition → Type 0
InRange (AmmInstruction.new_definition a b program) p = Unit {0}
InRange (AmmInstruction.add_liquidity least max_a max_b) p = DepositFits p max_a max_b
InRange (AmmInstruction.remove_liquidity amount min_a min_b) p = WithdrawalFits p amount
InRange (AmmInstruction.swap_exact_input amount_in min_out token) p = Fits p amount_in
InRange (AmmInstruction.swap_exact_output amount_out max_in token) p = Fits p max_in

-- The product of the reserves, by the square of the liquidity, does not fall.
abbrev pub ValueKeeps : (p q : PoolDefinition) → Type 0
ValueKeeps p q =
    p.reserve_a * p.reserve_b * (q.liquidity_pool_supply * q.liquidity_pool_supply)
    ≤ q.reserve_a * q.reserve_b * (p.liquidity_pool_supply * p.liquidity_pool_supply)

SharesKeep-ValueKeeps : (p q : PoolDefinition) → SharesKeep p q → ValueKeeps p q
SharesKeep-ValueKeeps p q shares = omega (arith, mul-le-mul shares.in_a shares.in_b)

Grows-ValueKeeps :
    (p q : PoolDefinition)
    → p.reserve_a * p.reserve_b ≤ q.reserve_a * q.reserve_b
    → q.liquidity_pool_supply ≡ p.liquidity_pool_supply
    → ValueKeeps p q
Grows-ValueKeeps p q product same =
    rw same (mul-le-mul_right (p.liquidity_pool_supply * p.liquidity_pool_supply) product)

values_trans : (a b c s0 s1 s2 : ℕ) → 0 < s1 → a * s1 ≤ b * s0 → b * s2 ≤ c * s1 → a * s2 ≤ c * s0
values_trans a b c s0 s1 s2 pos h1 h2 =
    let all : a * s2 * s1 ≤ c * s0 * s1 =
      omega (arith, mul-le-mul_right s2 h1, mul-le-mul_right s0 h2) in
    le_of_mul-le-mul_right all pos

ValueKeeps-trans :
    (p q r : PoolDefinition)
    → 0 < q.liquidity_pool_supply
    → ValueKeeps p q
    → ValueKeeps q r
    → ValueKeeps p r
ValueKeeps-trans p q r pos h1 h2 =
    let square : 0 < q.liquidity_pool_supply * q.liquidity_pool_supply =
      omega (arith, mul-le-mul pos pos) in
    values_trans (p.reserve_a * p.reserve_b) (q.reserve_a * q.reserve_b) (r.reserve_a * r.reserve_b)
      (p.liquidity_pool_supply * p.liquidity_pool_supply)
      (q.liquidity_pool_supply * q.liquidity_pool_supply)
      (r.liquidity_pool_supply * r.liquidity_pool_supply) square h1 h2

module _ (host : AmmHost) where
  -- An instruction that succeeds at an account with the pool `p`, and stores the pool `q`.
  pub record Trade (p q : PoolDefinition) : Type 0 where
    pub instruction : AmmInstruction
    pub pool : AccountWithMetadata
    pub others : List AccountWithMetadata
    pub result : List AccountPostState × List ChainedCall
    pub before : host.read_pool pool.account.data_bytes ≡ some p
    pub in_range : InRange instruction p
    pub runs : run_at host instruction pool others ≡ ok result
    pub after : pool_after host result.0 ≡ some q

  pub data Trades (p : PoolDefinition) : PoolDefinition → Type 0 where
    start : Trades p p
    next :
        {q r : PoolDefinition}
        → Trades p q
        → q.active ≡ true
        → 0 < q.liquidity_pool_supply
        → Trade q r
        → Trades p r

  -- A pool that is active is not opened again.
  old_pool-active :
      (pool : AccountWithMetadata) (p : PoolDefinition)
      → host.read_pool [] ≡ none
      → host.read_pool pool.account.data_bytes ≡ some p
      → old_pool host pool ≡ ok p
  unfolding old_pool
  old_pool-active pool p empty is_pool = elim (Bool-cases (is_default pool)) [
    | inl default ↦
        let same = (account_eq_iff pool.account default_account).0 default in
        absurd (cc (empty, is_pool, ap (λ (a : Account). host.read_pool a.data_bytes) same))
    | inr used ↦ rw (used, is_pool) refl
  ]

  new_definition-active :
      (pool : AccountWithMetadata) (a : Parties) (amount_a amount_b : ℕ) (program : ProgramId)
      (p : PoolDefinition) {result : List AccountPostState × List ChainedCall}
      → host.read_pool [] ≡ none
      → host.read_pool pool.account.data_bytes ≡ some p
      → p.active ≡ true
      → new_definition host pool a amount_a amount_b program ≢ ok result
  unfolding new_definition
  new_definition-active pool a amount_a amount_b program p empty is_pool active h =
      ground (arith, h, rw (old_pool-active pool p empty is_pool) at h, active)

  -- The two pools that are read from one account are one.
  same_pool :
      {bytes_read : Option PoolDefinition} (p q : PoolDefinition)
      → bytes_read ≡ some p
      → bytes_read ≡ some q
      → p ≡ q
  same_pool p q h1 h2 = cc

  run_at-ValueKeeps :
      (instruction : AmmInstruction) (pool : AccountWithMetadata)
      (others : List AccountWithMetadata) (p q : PoolDefinition)
      {result : List AccountPostState × List ChainedCall}
      → ((r : PoolDefinition) → host.read_pool (host.pool_bytes r) ≡ some r)
      → host.read_pool [] ≡ none
      → host.read_pool pool.account.data_bytes ≡ some p
      → p.active ≡ true
      → InRange instruction p
      → run_at host instruction pool others ≡ ok result
      → pool_after host result.0 ≡ some q
      → ValueKeeps p q
  unfolding run_at
  run_at-ValueKeeps (AmmInstruction.new_definition x y program) pool others p q back empty is_pool
        active fits h after =
      let (a, e1, h1) = >>=-eq-ok (six_parties others) _ h in
      let (pos_x, h2) = ensure-eq-ok (not (x == 0)) zero_argument _ h1 in
      let (pos_y, h3) = ensure-eq-ok (not (y == 0)) zero_argument _ h2 in
      absurd (new_definition-active pool a x y program p empty is_pool active h3)
  run_at-ValueKeeps (AmmInstruction.add_liquidity least x y) pool others p q back empty is_pool
        active fits h after =
      let (a, e1, h1) = >>=-eq-ok (six_parties others) _ h in
      let (pos, h2) = ensure-eq-ok (not (least == 0)) zero_argument _ h1 in
      let added = add_liquidity-Added host pool a p least x y back is_pool fits h2 in
      rw (same_pool q added.stored after added.is_stored)
        (SharesKeep-ValueKeeps p added.stored added.shares)
  run_at-ValueKeeps (AmmInstruction.remove_liquidity amount x y) pool others p q back empty is_pool
        active fits h after =
      let (a, e1, h1) = >>=-eq-ok (six_parties others) _ h in
      let (pos, h2) = ensure-eq-ok (not (amount == 0)) zero_argument _ h1 in
      let removed = remove_liquidity-Removed host pool a p amount x y back is_pool fits h2 in
      rw (same_pool q removed.stored after removed.is_stored)
        (SharesKeep-ValueKeeps p removed.stored removed.shares)
  run_at-ValueKeeps (AmmInstruction.swap_exact_input x y token) pool others p q back empty is_pool
        active fits h after =
      let (a, e1, h1) = >>=-eq-ok (four_parties others) _ h in
      let (stored, is_stored, product, same) =
        swap_exact_input-Grows host pool a.vault_a a.vault_b a.user_holding_a a.user_holding_b token
          p x y back is_pool fits h1 in
      rw (same_pool q stored after is_stored) (Grows-ValueKeeps p stored product same)
  run_at-ValueKeeps (AmmInstruction.swap_exact_output x y token) pool others p q back empty is_pool
        active fits h after =
      let (a, e1, h1) = >>=-eq-ok (four_parties others) _ h in
      let (stored, is_stored, product, same) =
        swap_exact_output-Grows host pool a.vault_a a.vault_b a.user_holding_a a.user_holding_b
          token p x y back is_pool fits h1 in
      rw (same_pool q stored after is_stored) (Grows-ValueKeeps p stored product same)

  -- Over any sequence of instructions of the market maker that find the pool active and with some
  -- liquidity left, the product of the reserves by the square of the liquidity does not fall: no sequence
  -- of deposits, withdrawals and swaps takes value from the holders of the liquidity, if borsh reads back
  -- the pools that it has written and reads none from no bytes, and the numbers are u128 values.
  pub Trades-ValueKeeps :
      {p q : PoolDefinition}
      → ((r : PoolDefinition) → host.read_pool (host.pool_bytes r) ≡ some r)
      → host.read_pool [] ≡ none
      → Trades p q
      → ValueKeeps p q
  Trades-ValueKeeps back empty start = omega arith
  Trades-ValueKeeps {p = p} back empty (next {q = q} {r = r} earlier active pos step) =
      let kept =
        run_at-ValueKeeps step.instruction step.pool step.others q r back empty step.before active
          step.in_range step.runs step.after in
      ValueKeeps-trans p q r pos (Trades-ValueKeeps back empty earlier) kept
