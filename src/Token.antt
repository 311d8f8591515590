-- ===== src/Token.antt =====
-- The token program: lez/programs/token/src and its core crate. A panic of the guest is an error, a
-- string its bytes. Borsh is a dependency: the derived encodings are the fields of `Codec`.
pub mod Types
pub mod Holdings
pub mod Supply
pub mod Accounting
pub mod Conservation
pub mod Creation
pub mod Instructions
use lp_0002_private_multisig.Prelude.{
  ℕ, Option, none, some, List, [], ◌∷◌, Bytes, bytes_eq, if◌then◌else◌, Result, ok, err, ◌>>=◌,
  ◌>>◌, ensure, ok_or,
}
use lp_0002_private_multisig.Core.Account.{
  Account, AccountWithMetadata, default_account, account_eq, try_into_data,
}
use lp_0002_private_multisig.Core.Program.{
  AccountPostState, ProgramInput, ProgramOutput, authorized, new_post_state, new_claimed,
  new_claimed_if_default, new_output,
}
use lp_0002_private_multisig.Token.Types.{
  TokenPanic, missing_authorization, invalid_data, definition_mismatch, account_in_use,
  data_too_big, wrong_account_count, TokenDefinition, TokenHolding, fungible_holding, TokenMetadata,
  NewTokenDefinition, NewTokenMetadata, Instruction, Codec, zeroized_clone_from,
  zeroized_from_definition, definition_id_of,
}
use lp_0002_private_multisig.Token.Holdings.{
  move_holding, mint_holding, burn_holding, print_holding, new_token,
}

-- `Data::from`: the bytes, if they fit; and the account with them.
unfoldable pub store : Account → Bytes → Result TokenPanic Account
store account bytes = do
  data_bytes ← ok_or (try_into_data bytes) data_too_big
  ok (record account { data_bytes = data_bytes })

module _ (codec : Codec) where
  -- `try_from(&account.data).expect(..)`
  unfoldable pub definition_of : AccountWithMetadata → Result TokenPanic TokenDefinition
  definition_of a = ok_or (codec.read_definition a.account.data_bytes) invalid_data

  unfoldable pub holding_of : AccountWithMetadata → Result TokenPanic TokenHolding
  holding_of a = ok_or (codec.read_holding a.account.data_bytes) invalid_data

  -- The holding of an account, or one of nothing for a default account.
  unfoldable pub holding_or : AccountWithMetadata → TokenHolding → Result TokenPanic TokenHolding
  unfolding holding_of
  holding_or a fresh = if account_eq a.account default_account then ok fresh else holding_of a

  unfoldable pub transfer :
      AccountWithMetadata → AccountWithMetadata → ℕ → Result TokenPanic (List AccountPostState)
  transfer sender recipient balance_to_move = do
    ensure sender.is_authorized missing_authorization
    sender_holding ← holding_of sender
    recipient_holding ← holding_or recipient (zeroized_clone_from sender_holding)
    ensure (bytes_eq (definition_id_of sender_holding) (definition_id_of recipient_holding))
        definition_mismatch
    (left, received) ← move_holding sender_holding recipient_holding balance_to_move
    sender_post ← store sender.account (codec.holding_bytes left)
    recipient_post ← store recipient.account (codec.holding_bytes received)
    ok (new_post_state sender_post ∷ new_claimed_if_default recipient_post authorized ∷ [])

  unfoldable pub mint :
      AccountWithMetadata → AccountWithMetadata → ℕ → Result TokenPanic (List AccountPostState)
  mint definition_account user_holding_account amount_to_mint = do
    ensure definition_account.is_authorized missing_authorization
    definition ← definition_of definition_account
    holding ←
        holding_or user_holding_account
          (zeroized_from_definition definition_account.account_id definition)
    ensure (bytes_eq definition_account.account_id (definition_id_of holding)) definition_mismatch
    (definition', holding') ← mint_holding definition holding amount_to_mint
    definition_post ← store definition_account.account (codec.definition_bytes definition')
    holding_post ← store user_holding_account.account (codec.holding_bytes holding')
    ok (new_post_state definition_post ∷ new_claimed_if_default holding_post authorized ∷ [])

  unfoldable pub burn :
      AccountWithMetadata → AccountWithMetadata → ℕ → Result TokenPanic (List AccountPostState)
  burn definition_account user_holding_account amount_to_burn = do
    ensure user_holding_account.is_authorized missing_authorization
    definition ← definition_of definition_account
    holding ← holding_of user_holding_account
    ensure (bytes_eq definition_account.account_id (definition_id_of holding)) definition_mismatch
    (definition', holding') ← burn_holding definition holding amount_to_burn
    definition_post ← store definition_account.account (codec.definition_bytes definition')
    holding_post ← store user_holding_account.account (codec.holding_bytes holding')
    ok (new_post_state definition_post ∷ new_post_state holding_post ∷ [])

  unfoldable pub initialize_account :
      AccountWithMetadata → AccountWithMetadata → Result TokenPanic (List AccountPostState)
  initialize_account definition_account account_to_initialize = do
    ensure (account_eq account_to_initialize.account default_account) account_in_use
    definition ← definition_of definition_account
    holding_post ←
        store account_to_initialize.account
          (codec.holding_bytes (zeroized_from_definition definition_account.account_id definition))
    ok (new_post_state definition_account.account ∷ new_claimed holding_post authorized ∷ [])

  unfoldable pub print_nft :
      AccountWithMetadata → AccountWithMetadata → Result TokenPanic (List AccountPostState)
  print_nft master_account printed_account = do
    ensure master_account.is_authorized missing_authorization
    ensure (account_eq printed_account.account default_account) account_in_use
    master ← holding_of master_account
    (master', copy) ← print_holding master
    master_post ← store master_account.account (codec.holding_bytes master')
    printed_post ← store printed_account.account (codec.holding_bytes copy)
    ok (new_post_state master_post ∷ new_claimed printed_post authorized ∷ [])

  unfoldable pub new_fungible_definition :
      AccountWithMetadata
      → AccountWithMetadata
      → (name : Bytes) (total_supply : ℕ) → Result TokenPanic (List AccountPostState)
  new_fungible_definition definition_target holding_target name total_supply = do
    ensure (account_eq definition_target.account default_account) account_in_use
    ensure (account_eq holding_target.account default_account) account_in_use
    definition_post ←
        store definition_target.account
          (codec.definition_bytes (TokenDefinition.fungible name total_supply none))
    holding_post ←
        store holding_target.account
          (codec.holding_bytes (fungible_holding definition_target.account_id total_supply))
    ok (new_claimed definition_post authorized ∷ new_claimed holding_post authorized ∷ [])

  unfoldable pub new_definition_with_metadata :
      (definition_target holding_target metadata_target : AccountWithMetadata)
      → NewTokenDefinition
      → NewTokenMetadata
      → Result TokenPanic (List AccountPostState)
  new_definition_with_metadata definition_target holding_target metadata_target new_definition
        metadata =
      do
        ensure (account_eq definition_target.account default_account) account_in_use
        ensure (account_eq holding_target.account default_account) account_in_use
        ensure (account_eq metadata_target.account default_account) account_in_use
        let created =
            new_token new_definition definition_target.account_id metadata_target.account_id
        let token_metadata : TokenMetadata = record {
          definition_id = definition_target.account_id;
          standard = metadata.standard;
          uri = metadata.uri;
          creators = metadata.creators;
          primary_sale_date = 0;
        }
        definition_post ← store definition_target.account (codec.definition_bytes created.0)
        holding_post ← store holding_target.account (codec.holding_bytes created.1)
        metadata_post ← store metadata_target.account (codec.metadata_bytes token_metadata)
        ok (
            new_claimed definition_post authorized
            ∷ new_claimed holding_post authorized
            ∷ new_claimed metadata_post authorized
            ∷ [])

  -- The `match instruction` of `main`.
  unfoldable pub run_token_instruction :
      Instruction → List AccountWithMetadata → Result TokenPanic (List AccountPostState)
  run_token_instruction (Instruction.transfer amount) (sender ∷ recipient ∷ []) =
      transfer sender recipient amount
  run_token_instruction (Instruction.new_fungible_definition name supply)
        (definition ∷ holding ∷ []) =
      new_fungible_definition definition holding name supply
  run_token_instruction (Instruction.new_definition_with_metadata new_definition metadata)
        (definition ∷ holding ∷ metadata_account ∷ []) =
      new_definition_with_metadata definition holding metadata_account new_definition metadata
  run_token_instruction Instruction.initialize_account (definition ∷ account_to_initialize ∷ []) =
      initialize_account definition account_to_initialize
  run_token_instruction (Instruction.burn amount) (definition ∷ holding ∷ []) =
      burn definition holding amount
  run_token_instruction (Instruction.mint amount) (definition ∷ holding ∷ []) =
      mint definition holding amount
  run_token_instruction Instruction.print_nft (master ∷ printed ∷ []) = print_nft master printed
  run_token_instruction _ _ = err wrong_account_count

  -- `main`
  unfoldable pub token_main : ProgramInput Instruction → Result TokenPanic ProgramOutput
  unfolding run_token_instruction
  token_main input = do
    post_states ← run_token_instruction input.instruction input.pre_states
    ok (
        new_output input.self_program_id input.caller_program_id input.instruction_words
          input.pre_states post_states)
