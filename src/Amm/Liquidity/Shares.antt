-- ===== src/Amm/Liquidity/Shares.antt =====
-- What a share of the pool is worth, under deposits and withdrawals.
use lp_0002_private_multisig.Prelude.{ℕ, ◌*◌, ◌≤◌, ◌<◌, ◌≡◌, List, [], ◌∷◌, true, Bytes, arith}
use lp_0002_private_multisig.Core.Account.{AccountWithMetadata, ProgramId, u128_mod}
use lp_0002_private_multisig.Core.Program.{ChainedCall}
use lp_0002_private_multisig.Token.Types.{Instruction}
use lp_0002_private_multisig.Amm.Pool.{PoolDefinition, AmmHost, wrapping_mul}

-- A share of `q` is worth at least a share of `p`, in each of the tokens.
pub record SharesKeep (p q : PoolDefinition) : Type 0 where
  pub in_a : p.reserve_a * q.liquidity_pool_supply ≤ q.reserve_a * p.liquidity_pool_supply
  pub in_b : p.reserve_b * q.liquidity_pool_supply ≤ q.reserve_b * p.liquidity_pool_supply

pub exact_mul : (a b : ℕ) → a * b < u128_mod → wrapping_mul a b ≡ a * b
exact_mul a b fits = omega (arith, fits)

-- A call of the program `token` with an instruction on two accounts, under seeds of the caller.
abbrev pub call_of :
    AmmHost
    → (token : ProgramId) → (from to : AccountWithMetadata) → Instruction
    → (seeds : List Bytes) → ChainedCall
call_of host token from to instruction seeds = record {
  program_id = token;
  pre_states = from ∷ to ∷ [];
  instruction_data = host.to_vec instruction;
  pda_seeds = seeds;
}

-- The account with the authorization of its program.
abbrev pub with_authorization : AccountWithMetadata → AccountWithMetadata
with_authorization a = record a { is_authorized = true }
