-- ===== src/Amm/Pool.antt =====
-- The pool of the market maker: `PoolDefinition`, the instructions and the addresses of lez/programs/amm/core/src/lib.rs,
-- and u128 arithmetic. Guests are built without overflow checks, so that a plain `+` or `-` wraps.
use lp_0002_private_multisig.Prelude.{
  ℕ, ◌+◌, ◌-◌, ◌*◌, ◌/◌, ◌%◌, Option, none, some, Bool, Bytes, ◌++◌, ltb, ◌==◌, if◌then◌else◌,
  Result, ok, err, ◌>>=◌, bytes_eq, replicate,
}
use lp_0002_private_multisig.Core.Account.{AccountId, ProgramId, u128_mod}
use lp_0002_private_multisig.Circuit.Obfuscation.{bytes_leb}
use lp_0002_private_multisig.Core.Keys.{for_public_pda}
use lp_0002_private_multisig.Core.Program.{InstructionData}
use lp_0002_private_multisig.Token.Types.{Instruction, Codec}

pub data AmmPanic : Type 0 where
  invalid_pool inactive_pool wrong_vault_a wrong_vault_b invalid_vault not_fungible : AmmPanic
  reserve_exceeds_vault unknown_token multiplication_overflow division_by_zero : AmmPanic
  amount_below_minimum amount_above_maximum zero_amount amount_exceeds_reserve data_too_big :
      AmmPanic
  wrong_lp_definition zero_maximum zero_minimum zero_reserve zero_liquidity : AmmPanic
  liquidity_below_minimum invalid_holding wrong_liquidity_account wrong_token_program : AmmPanic
  same_token wrong_pool_pda wrong_vault_pda wrong_lp_pda active_pool : AmmPanic
  wrong_account_count zero_argument : AmmPanic

pub data AmmInstruction : Type 0 where
  new_definition : (token_a_amount token_b_amount : ℕ) (amm_program_id : ProgramId) → AmmInstruction
  add_liquidity :
      (min_amount_liquidity max_amount_to_add_token_a max_amount_to_add_token_b : ℕ)
      → AmmInstruction
  remove_liquidity :
      (remove_liquidity_amount min_amount_to_remove_token_a min_amount_to_remove_token_b : ℕ)
      → AmmInstruction
  swap_exact_input :
      (swap_amount_in min_amount_out : ℕ) (token_definition_id_in : AccountId) → AmmInstruction
  swap_exact_output :
      (exact_amount_out max_amount_in : ℕ) (token_definition_id_in : AccountId) → AmmInstruction

pub record PoolDefinition : Type 0 where
  pub definition_token_a_id : AccountId
  pub definition_token_b_id : AccountId
  pub vault_a_id : AccountId
  pub vault_b_id : AccountId
  pub liquidity_pool_id : AccountId
  pub liquidity_pool_supply : ℕ
  pub reserve_a : ℕ
  pub reserve_b : ℕ
  pub fees : ℕ
  pub active : Bool

-- What the program calls and does not implement: SHA-256, the derived borsh encodings of pools and of
-- tokens, and the risc0 serializer at the instructions of the token program.
pub record AmmHost : Type 0 where
  pub sha256 : Bytes → Bytes
  pub read_pool : Bytes → Option PoolDefinition
  pub pool_bytes : PoolDefinition → Bytes
  pub token : Codec
  pub to_vec : Instruction → InstructionData

abbrev pub wrapping_add : ℕ → ℕ → ℕ
wrapping_add a b = (a + b) % u128_mod

abbrev pub wrapping_sub : ℕ → ℕ → ℕ
wrapping_sub a b = (a + u128_mod - b) % u128_mod

abbrev pub wrapping_mul : ℕ → ℕ → ℕ
wrapping_mul a b = a * b % u128_mod

-- `u128::checked_mul`, `u128::div_ceil`
unfoldable pub checked_mul : ℕ → ℕ → Option ℕ
checked_mul a b = if ltb (a * b) u128_mod then some (a * b) else none

abbrev pub div_ceil : ℕ → ℕ → ℕ
div_ceil a b = if a % b == 0 then a / b else a / b + 1

unfoldable pub compute_vault_pda_seed :
    (Bytes → Bytes) → (pool_id definition_token_id : AccountId) → Bytes
compute_vault_pda_seed sha256 pool_id definition_token_id = sha256 (pool_id ++ definition_token_id)

unfoldable pub compute_liquidity_token_pda_seed : (Bytes → Bytes) → (pool_id : AccountId) → Bytes
compute_liquidity_token_pda_seed sha256 pool_id = sha256 (pool_id ++ replicate 32 0)

-- The seed of a pool: the larger id first.
unfoldable pub compute_pool_pda_seed :
    (Bytes → Bytes)
    → (definition_token_a_id definition_token_b_id : AccountId) → Result AmmPanic Bytes
compute_pool_pda_seed sha256 a b =
    if bytes_eq a b
    then err same_token
    else if bytes_leb a b
    then ok (sha256 (b ++ a))
    else ok (sha256 (a ++ b))

unfoldable pub compute_pool_pda :
    (Bytes → Bytes)
    → ProgramId
    → (definition_token_a_id definition_token_b_id : AccountId) → Result AmmPanic AccountId
unfolding compute_pool_pda_seed
compute_pool_pda sha256 amm_program_id a b =
    compute_pool_pda_seed sha256 a b >>= λ seed. ok (for_public_pda sha256 amm_program_id seed)

unfoldable pub compute_vault_pda :
    (Bytes → Bytes) → ProgramId → (pool_id definition_token_id : AccountId) → AccountId
compute_vault_pda sha256 amm_program_id pool_id definition_token_id =
    for_public_pda sha256 amm_program_id (compute_vault_pda_seed sha256 pool_id definition_token_id)

unfoldable pub compute_liquidity_token_pda :
    (Bytes → Bytes) → ProgramId → (pool_id : AccountId) → AccountId
compute_liquidity_token_pda sha256 amm_program_id pool_id =
    for_public_pda sha256 amm_program_id (compute_liquidity_token_pda_seed sha256 pool_id)
