-- ===== src/Witnesses/Pools.antt =====
-- Swaps on a pool with reserves of 1000 and 500, with a small encoding in the place of borsh.
use lp_0002_private_multisig.Prelude.{
  ℕ, zero, suc, ◌≡◌, refl, Option, none, some, List, [], ◌∷◌, ◌++◌, Bool, true, false, Bytes,
  bytes_eq, ok, length, take, drop, take-append_length, drop-append_length, arith,
}
use lp_0002_private_multisig.Core.Account.{AccountWithMetadata, default_account, try_into_data}
use lp_0002_private_multisig.Core.Program.{AccountPostState, ChainedCall}
use lp_0002_private_multisig.Token.Types.{definition_id_of}
use lp_0002_private_multisig.Amm.Pool.{AmmHost, PoolDefinition, checked_mul, compute_vault_pda_seed}
use lp_0002_private_multisig.Amm.Swap.{
  swap_exact_input, swap_exact_output, swap_at, swap_a, swap_b, swap_calls, amount_out, amount_in,
  next_pool, check_vault, validate_swap_setup, create_swap_post_states, unchanged_posts,
}
use lp_0002_private_multisig.Amm.Swap.Reserves.{Grows, swap_exact_output-Grows}
use lp_0002_private_multisig.Witnesses.Samples.{toy_hash}
use lp_0002_private_multisig.Witnesses.Tokens.{toy_codec, parse_holding}

abbrev pub flag : Bool → ℕ
flag false = 0
flag true = 1

abbrev pub flagged : ℕ → Bool
flagged zero = false
flagged (suc n) = true

unfoldable pub write_pool : PoolDefinition → Bytes
write_pool p =
    length p.definition_token_a_id
    ∷ length p.definition_token_b_id
    ∷ length p.vault_a_id
    ∷ length p.vault_b_id
    ∷ p.liquidity_pool_supply
    ∷ p.reserve_a
    ∷ p.reserve_b
    ∷ p.fees
    ∷ flag p.active
    ∷ (p.definition_token_a_id
        ++ (p.definition_token_b_id ++ (p.vault_a_id ++ (p.vault_b_id ++ p.liquidity_pool_id))))

unfoldable pub parse_pool : Bytes → Option PoolDefinition
parse_pool (a ∷ b ∷ c ∷ d ∷ supply ∷ reserve_a ∷ reserve_b ∷ fees ∷ active ∷ ids) = some (record {
  definition_token_a_id = take a ids;
  definition_token_b_id = take b (drop a ids);
  vault_a_id = take c (drop b (drop a ids));
  vault_b_id = take d (drop c (drop b (drop a ids)));
  liquidity_pool_id = drop d (drop c (drop b (drop a ids)));
  liquidity_pool_supply = supply;
  reserve_a = reserve_a;
  reserve_b = reserve_b;
  fees = fees;
  active = flagged active;
})
parse_pool _ = none

flagged-flag : (b : Bool) → flagged (flag b) ≡ b
flagged-flag false = refl
flagged-flag true = refl

pub parse_pool-write_pool : (p : PoolDefinition) → parse_pool (write_pool p) ≡ some p
unfolding parse_pool write_pool
parse_pool-write_pool p =
    let ids4 = p.vault_b_id ++ p.liquidity_pool_id in
    let ids3 = p.vault_a_id ++ ids4 in
    let ids2 = p.definition_token_b_id ++ ids3 in
    rw
      (
        take-append_length (length p.definition_token_a_id) p.definition_token_a_id ids2 refl,
        drop-append_length (length p.definition_token_a_id) p.definition_token_a_id ids2 refl,
        take-append_length (length p.definition_token_b_id) p.definition_token_b_id ids3 refl,
        drop-append_length (length p.definition_token_b_id) p.definition_token_b_id ids3 refl,
        take-append_length (length p.vault_a_id) p.vault_a_id ids4 refl,
        drop-append_length (length p.vault_a_id) p.vault_a_id ids4 refl,
        take-append_length (length p.vault_b_id) p.vault_b_id p.liquidity_pool_id refl,
        drop-append_length (length p.vault_b_id) p.vault_b_id p.liquidity_pool_id refl,
        flagged-flag p.active,
      )
      refl

abbrev pub toy_amm : AmmHost
toy_amm = record {
  sha256 = toy_hash;
  read_pool = parse_pool;
  pool_bytes = write_pool;
  token = toy_codec;
  to_vec = λ instruction. [];
}

abbrev pub market : PoolDefinition
market = record {
  definition_token_a_id = 1 ∷ [];
  definition_token_b_id = 2 ∷ [];
  vault_a_id = 3 ∷ [];
  vault_b_id = 4 ∷ [];
  liquidity_pool_id = 5 ∷ [];
  liquidity_pool_supply = 700;
  reserve_a = 1000;
  reserve_b = 500;
  fees = 0;
  active = true;
}

abbrev pub account_of : (id : Bytes) (data_bytes : Bytes) → AccountWithMetadata
account_of id data_bytes = record {
  account = record default_account { data_bytes = data_bytes };
  is_authorized = false;
  account_id = id;
}

abbrev pub pool_account : AccountWithMetadata
pool_account =
    account_of (9 ∷ []) (1 ∷ 1 ∷ 1 ∷ 1 ∷ 700 ∷ 1000 ∷ 500 ∷ 0 ∷ 1 ∷ 1 ∷ 2 ∷ 3 ∷ 4 ∷ 5 ∷ [])

abbrev pub vault_a : AccountWithMetadata
vault_a = account_of (3 ∷ []) (0 ∷ 1000 ∷ 1 ∷ [])

abbrev pub vault_b : AccountWithMetadata
vault_b = account_of (4 ∷ []) (0 ∷ 510 ∷ 2 ∷ [])

abbrev pub holding_a : AccountWithMetadata
holding_a = account_of (6 ∷ []) (0 ∷ 100 ∷ 1 ∷ [])

abbrev pub holding_b : AccountWithMetadata
holding_b = account_of (7 ∷ []) (0 ∷ 0 ∷ 2 ∷ [])

pub pool_account_is : parse_pool pool_account.account.data_bytes ≡ some market
unfolding parse_pool
pool_account_is = refl

-- The results, with the calls as the code makes them.
abbrev posts_of : (reserve_a reserve_b : ℕ) → List AccountPostState
posts_of reserve_a reserve_b = unchanged_posts (
    account_of (9 ∷ [])
      (write_pool (record market { reserve_a = reserve_a; reserve_b = reserve_b }))
    ∷ vault_a
    ∷ vault_b
    ∷ holding_a
    ∷ holding_b
    ∷ [])

-- The calls: the holder of token A pays into its vault, and takes from the other.
abbrev calls : List ChainedCall
calls =
    record {
      program_id = holding_a.account.program_owner;
      pre_states = holding_a ∷ vault_a ∷ [];
      instruction_data = [];
      pda_seeds = [];
    }
    ∷ record {
      program_id = holding_a.account.program_owner;
      pre_states = record vault_b { is_authorized = true } ∷ holding_b ∷ [];
      instruction_data = [];
      pda_seeds = toy_hash (9 ∷ 2 ∷ []) ∷ [];
    }
    ∷ []

swapped_in :
    swap_exact_input toy_amm pool_account vault_a vault_b holding_a holding_b 100 40 (1 ∷ [])
    ≡ ok (posts_of 1100 455, calls)
unfolding swap_at swap_a swap_b swap_calls amount_out amount_in next_pool check_vault
    validate_swap_setup create_swap_post_states unchanged_posts parse_pool write_pool bytes_eq
    try_into_data checked_mul parse_holding definition_id_of compute_vault_pda_seed
swapped_in = refl

swapped_out :
    swap_exact_output toy_amm pool_account vault_a vault_b holding_a holding_b 45 100 (1 ∷ [])
    ≡ ok (posts_of 1099 455, calls)
unfolding swap_at swap_a swap_b swap_calls amount_out amount_in next_pool check_vault
    validate_swap_setup create_swap_post_states unchanged_posts parse_pool write_pool bytes_eq
    try_into_data checked_mul parse_holding definition_id_of compute_vault_pda_seed
swapped_out = refl

swap_exact_output-Grows_example :
    Grows toy_amm pool_account vault_a vault_b holding_a holding_b
      (1 ∷ [])
      market
      (posts_of 1099 455)
swap_exact_output-Grows_example =
    swap_exact_output-Grows toy_amm pool_account vault_a vault_b holding_a holding_b (1 ∷ []) market
      45 100 parse_pool-write_pool pool_account_is (omega arith, omega arith) swapped_out
