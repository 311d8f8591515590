-- ===== src/Witnesses/Liquidity.antt =====
-- A pool is opened, gets a deposit and pays a withdrawal.
use lp_0002_private_multisig.Prelude.{
  ℕ, ◌≡◌, ◌^◌, refl, none, List, [], ◌∷◌, Bytes, bytes_eq, u32_to_le_bytes, ok, arith,
}
use lp_0002_private_multisig.Core.Account.{
  AccountWithMetadata, ProgramId, AccountId, account_eq, try_into_data,
}
use lp_0002_private_multisig.Core.Keys.{for_public_pda, program_id_bytes}
use lp_0002_private_multisig.Core.Program.{
  AccountPostState, ChainedCall, Claim, new_claimed, new_claimed_if_default,
}
use lp_0002_private_multisig.Circuit.Obfuscation.{bytes_leb}
use lp_0002_private_multisig.Token.Types.{definition_id_of}
use lp_0002_private_multisig.Amm.Pool.{
  AmmInstruction, PoolDefinition, compute_pool_pda, compute_pool_pda_seed, compute_vault_pda,
  compute_vault_pda_seed, compute_liquidity_token_pda, compute_liquidity_token_pda_seed,
}
use lp_0002_private_multisig.Amm.Swap.{unchanged_posts, create_swap_post_states}
use lp_0002_private_multisig.Amm.Liquidity.{
  Parties, parties_list, Deposit, deposit_of, pool_with_deposit, Withdrawal, withdrawal_of,
  pool_with_withdrawal, fungible_balance, validate_deposit, deposit_calls, add_liquidity,
  validate_withdrawal, withdrawal_calls, remove_liquidity,
}
use lp_0002_private_multisig.Amm.Liquidity.Deposits.{Added, DepositFits, add_liquidity-Added}
use lp_0002_private_multisig.Amm.Liquidity.Withdrawals.{
  Removed, WithdrawalFits, remove_liquidity-Removed,
}
use lp_0002_private_multisig.Amm.Creation.{
  isqrt_within, initial_pool, holding_definition, old_pool, validate_addresses, creation_calls,
  new_definition,
}
use lp_0002_private_multisig.Amm.Creation.Opening.{Opened, new_definition-Opened}
use lp_0002_private_multisig.Amm.Instructions.{run_at, six_parties}
use lp_0002_private_multisig.Amm.Instructions.Value.{
  Trades, start, next, ValueKeeps, Trades-ValueKeeps,
}
use lp_0002_private_multisig.Witnesses.Samples.{toy_hash}
use lp_0002_private_multisig.Witnesses.Tokens.{parse_holding}
use lp_0002_private_multisig.Witnesses.Pools.{
  toy_amm, market, account_of, pool_account, vault_a, vault_b, holding_a, holding_b, write_pool,
  parse_pool, parse_pool-write_pool, pool_account_is,
}

abbrev parties : Parties
parties = record {
  vault_a = vault_a;
  vault_b = vault_b;
  pool_definition_lp = account_of (5 ∷ []) [];
  user_holding_a = holding_a;
  user_holding_b = holding_b;
  user_holding_lp = account_of (8 ∷ []) (0 ∷ 200 ∷ 5 ∷ []);
}

abbrev pool_of : (supply reserve_a reserve_b : ℕ) → PoolDefinition
pool_of supply reserve_a reserve_b = record market {
  liquidity_pool_supply = supply;
  reserve_a = reserve_a;
  reserve_b = reserve_b;
}

abbrev posts_of : PoolDefinition → List AccountPostState
posts_of p = unchanged_posts (account_of (9 ∷ []) (write_pool p) ∷ parties_list parties)

abbrev deposit : Deposit
deposit = record { actual_amount_a = 100; actual_amount_b = 50; delta_lp = 70 }

abbrev added : List AccountPostState × List ChainedCall
added = (posts_of (pool_of 770 1100 550), deposit_calls toy_amm (9 ∷ []) parties deposit)

added_is : add_liquidity toy_amm pool_account parties 60 100 60 ≡ ok added
unfolding add_liquidity validate_deposit fungible_balance deposit_of pool_with_deposit
    create_swap_post_states unchanged_posts parse_pool write_pool bytes_eq try_into_data
    parse_holding
added_is = refl

deposit_fits : DepositFits market 100 60
deposit_fits = record {
  reserve_a_product = omega arith;
  reserve_b_product = omega arith;
  supply_product_a = omega arith;
  supply_product_b = omega arith;
  reserve_a_sum = omega arith;
  reserve_b_sum = omega arith;
}

add_liquidity-Added_example : Added toy_amm pool_account parties market 60 100 60 added
add_liquidity-Added_example =
    add_liquidity-Added toy_amm pool_account parties market 60 100 60 parse_pool-write_pool
      pool_account_is deposit_fits added_is

abbrev withdrawal : Withdrawal
withdrawal = record { withdraw_amount_a = 100; withdraw_amount_b = 50; delta_lp = 70 }

abbrev removed : List AccountPostState × List ChainedCall
removed =
    (posts_of (pool_of 630 900 450), withdrawal_calls toy_amm (9 ∷ []) market parties withdrawal)

removed_is : remove_liquidity toy_amm pool_account parties 70 90 50 ≡ ok removed
unfolding remove_liquidity validate_withdrawal withdrawal_of pool_with_withdrawal
    create_swap_post_states unchanged_posts parse_pool write_pool bytes_eq try_into_data
    parse_holding
removed_is = refl

withdrawal_fits : WithdrawalFits market 70
withdrawal_fits = record {
  amount_in_supply = omega arith;
  supply_product = omega arith;
  reserve_a_product = omega arith;
  reserve_b_product = omega arith;
  supply_bound = omega arith;
  reserve_a_bound = omega arith;
  reserve_b_bound = omega arith;
}

remove_liquidity-Removed_example : Removed toy_amm pool_account parties market 70 90 50 removed
remove_liquidity-Removed_example =
    remove_liquidity-Removed toy_amm pool_account parties market 70 90 50 parse_pool-write_pool
      pool_account_is withdrawal_fits removed_is

-- The addresses of a new pool for the tokens 1 and 2.
abbrev program : ProgramId
program = 1 ∷ []

abbrev seed : Bytes
seed = toy_hash (2 ∷ 1 ∷ [])

abbrev new_id : AccountId
new_id = for_public_pda toy_hash program seed

abbrev new_account : AccountWithMetadata
new_account = account_of new_id []

abbrev founders : Parties
founders = record parties {
  vault_a = account_of (compute_vault_pda toy_hash program new_id (1 ∷ [])) [];
  vault_b = account_of (compute_vault_pda toy_hash program new_id (2 ∷ [])) [];
  pool_definition_lp = account_of (compute_liquidity_token_pda toy_hash program new_id) [];
}

abbrev new_pool : PoolDefinition
new_pool = initial_pool founders (1 ∷ []) (2 ∷ []) 100 50

abbrev opened : List AccountPostState × List ChainedCall
opened = (
  new_claimed (account_of new_id (write_pool new_pool)).account (Claim.pda seed)
      ∷ unchanged_posts (parties_list founders),
  creation_calls toy_amm new_account founders new_pool,
)

opened_is : new_definition toy_amm new_account founders 100 50 program ≡ ok opened
unfolding new_definition holding_definition validate_addresses old_pool compute_pool_pda
    compute_pool_pda_seed new_claimed_if_default parse_holding bytes_eq bytes_leb toy_hash
    account_eq try_into_data definition_id_of for_public_pda program_id_bytes u32_to_le_bytes
    compute_vault_pda compute_vault_pda_seed compute_liquidity_token_pda
    compute_liquidity_token_pda_seed write_pool initial_pool
opened_is = refl

new_definition-Opened_example : Opened toy_amm program new_account founders 100 50 opened.0
new_definition-Opened_example =
    new_definition-Opened toy_amm program new_account founders 100 50 parse_pool-write_pool
      (omega arith) opened_is

nothing_parsed : parse_pool [] ≡ none
unfolding parse_pool
nothing_parsed = refl

adding :
    run_at toy_amm (AmmInstruction.add_liquidity 60 100 60) pool_account (parties_list parties)
    ≡ ok added
unfolding run_at six_parties
adding = added_is

history : Trades toy_amm market (pool_of 770 1100 550)
unfolding parse_pool write_pool unchanged_posts
history = next start refl (omega arith) (record {
  instruction = AmmInstruction.add_liquidity 60 100 60;
  pool = pool_account;
  others = parties_list parties;
  result = added;
  before = pool_account_is;
  in_range = deposit_fits;
  runs = adding;
  after = refl;
})

Trades-ValueKeeps_example : ValueKeeps market (pool_of 770 1100 550)
Trades-ValueKeeps_example = Trades-ValueKeeps toy_amm parse_pool-write_pool nothing_parsed history

-- The product of the amounts wraps: 2^64 of each token give no liquidity at all.
no_liquidity : (initial_pool founders (1 ∷ []) (2 ∷ []) (2 ^ 64) (2 ^ 64)).liquidity_pool_supply ≡ 0
unfolding initial_pool isqrt_within
no_liquidity = refl
