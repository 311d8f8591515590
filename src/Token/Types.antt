-- ===== src/Token/Types.antt =====
-- The data of the token program: lez/programs/token/core/src/lib.rs.
use lp_0002_private_multisig.Prelude.{ℕ, Option, Bool, false, Bytes}
use lp_0002_private_multisig.Core.Account.{AccountId}

pub data TokenPanic : Type 0 where
  missing_authorization invalid_data definition_mismatch insufficient_balance : TokenPanic
  balance_overflow supply_overflow supply_underflow invalid_nft_amount : TokenPanic
  copy_not_owned copy_already_owned holding_kind_mismatch cannot_mint_nft : TokenPanic
  account_in_use not_a_master no_copy_left data_too_big wrong_account_count : TokenPanic

pub data NewTokenDefinition : Type 0 where
  fungible : (name : Bytes) (total_supply : ℕ) → NewTokenDefinition
  non_fungible : (name : Bytes) (printable_supply : ℕ) → NewTokenDefinition

pub data TokenDefinition : Type 0 where
  fungible : (name : Bytes) (total_supply : ℕ) (metadata_id : Option AccountId) → TokenDefinition
  non_fungible : (name : Bytes) (printable_supply : ℕ) (metadata_id : AccountId) → TokenDefinition

pub data TokenHolding : Type 0 where
  fungible_holding : (definition_id : AccountId) (balance : ℕ) → TokenHolding
  nft_master : (definition_id : AccountId) (print_balance : ℕ) → TokenHolding
  nft_printed_copy : (definition_id : AccountId) (owned : Bool) → TokenHolding

pub data MetadataStandard : Type 0 where
  simple expanded : MetadataStandard

pub record NewTokenMetadata : Type 0 where
  pub standard : MetadataStandard
  pub uri : Bytes
  pub creators : Bytes

pub record TokenMetadata : Type 0 where
  pub definition_id : AccountId
  pub standard : MetadataStandard
  pub uri : Bytes
  pub creators : Bytes
  pub primary_sale_date : ℕ

pub data Instruction : Type 0 where
  transfer : (amount_to_transfer : ℕ) → Instruction
  new_fungible_definition : (name : Bytes) (total_supply : ℕ) → Instruction
  new_definition_with_metadata : NewTokenDefinition → NewTokenMetadata → Instruction
  initialize_account : Instruction
  burn : (amount_to_burn : ℕ) → Instruction
  mint : (amount_to_mint : ℕ) → Instruction
  print_nft : Instruction

-- The derived borsh encodings: `try_from_slice` and `serialize` of each type.
pub record Codec : Type 0 where
  pub read_definition : Bytes → Option TokenDefinition
  pub definition_bytes : TokenDefinition → Bytes
  pub read_holding : Bytes → Option TokenHolding
  pub holding_bytes : TokenHolding → Bytes
  pub metadata_bytes : TokenMetadata → Bytes

unfoldable pub zeroized_clone_from : TokenHolding → TokenHolding
zeroized_clone_from (fungible_holding id balance) = fungible_holding id 0
zeroized_clone_from (nft_master id prints) = nft_master id 0
zeroized_clone_from (nft_printed_copy id owned) = nft_printed_copy id false

unfoldable pub zeroized_from_definition : AccountId → TokenDefinition → TokenHolding
zeroized_from_definition id (TokenDefinition.fungible name supply metadata) = fungible_holding id 0
zeroized_from_definition id (TokenDefinition.non_fungible name supply metadata) =
    nft_printed_copy id false

unfoldable pub definition_id_of : TokenHolding → AccountId
definition_id_of (fungible_holding id balance) = id
definition_id_of (nft_master id prints) = id
definition_id_of (nft_printed_copy id owned) = id
