-- ===== src/Core/Account.antt =====
-- lee/state_machine/core/src/account.rs and account/data.rs. `[u8; 32]` and `[u32; 8]` are lists of
-- numbers; `balance` and `nonce` are u128 values, kept as numbers.
use lp_0002_private_multisig.Prelude.{
  ℕ, ◌+◌, ◌*◌, ◌^◌, ◌≡◌, ◌↔◌, Bool, true, ◌&&◌, Option, none, some, [], ◌∷◌, ltb, ◌==◌,
  if◌then◌else◌, arith, Bytes, bytes_eq, bytes_eq_iff, length,
}

abbrev pub u128_mod : ℕ
u128_mod = 2 ^ 128

abbrev pub ProgramId : Type 0
ProgramId = Bytes

abbrev pub AccountId : Type 0
AccountId = Bytes

-- `DEFAULT_PROGRAM_ID`
abbrev pub default_program_id : ProgramId
default_program_id = 0 ∷ 0 ∷ 0 ∷ 0 ∷ 0 ∷ 0 ∷ 0 ∷ 0 ∷ []

-- `data` is a reserved word here: the field `data` is `data_bytes`.
pub record Account : Type 0 where
  pub program_owner : ProgramId
  pub balance : ℕ
  pub data_bytes : Bytes
  pub nonce : ℕ

-- `Account::default()`
abbrev pub default_account : Account
default_account = record {
  program_owner = default_program_id;
  balance = 0;
  data_bytes = [];
  nonce = 0;
}

-- The derived `PartialEq`.
unfoldable pub account_eq : Account → Account → Bool
account_eq a b =
    bytes_eq a.program_owner b.program_owner
    && a.balance == b.balance
    && bytes_eq a.data_bytes b.data_bytes
    && a.nonce == b.nonce

pub account_eq_iff : (a b : Account) → (account_eq a b ≡ true) ↔ (a ≡ b)
unfolding account_eq
account_eq_iff a b =
    ground
      (arith, bytes_eq_iff a.program_owner b.program_owner, bytes_eq_iff a.data_bytes b.data_bytes)

pub record AccountWithMetadata : Type 0 where
  pub account : Account
  pub is_authorized : Bool
  pub account_id : AccountId

-- `DATA_MAX_LENGTH`, 100 KiB
abbrev pub data_max_length : ℕ
data_max_length = 100 * 1024

-- `Data::try_from(Vec<u8>)`
unfoldable pub try_into_data : Bytes → Option Bytes
try_into_data value = if ltb data_max_length (length value) then none else some value

-- `Nonce::public_account_nonce_increment`; `none` is the panic on overflow.
unfoldable pub public_account_nonce_increment : ℕ → Option ℕ
public_account_nonce_increment nonce = if ltb (nonce + 1) u128_mod then some (nonce + 1) else none
