-- ===== src/Witnesses/Tokens.antt =====
-- A transfer of tokens, with a small encoding in the place of borsh.
use lp_0002_private_multisig.Prelude.{
  ℕ, zero, suc, ◌+◌, ◌≡◌, refl, Option, none, some, List, [], ◌∷◌, ◌++◌, true, false, Bytes, ok,
  length, take, drop, take-append_length, drop-append_length, replicate, bytes_eq,
}
use lp_0002_private_multisig.Core.Account.{
  Account, AccountWithMetadata, default_account, account_eq, try_into_data,
}
use lp_0002_private_multisig.Core.Program.{
  AccountPostState, new_post_state, new_claimed_if_default, authorized,
}
use lp_0002_private_multisig.AuthenticatedTransfer.{checked_sub, checked_add}
use lp_0002_private_multisig.Token
use lp_0002_private_multisig.Token.Types.{
  TokenDefinition, TokenHolding, fungible_holding, nft_master, nft_printed_copy, Instruction, Codec,
  zeroized_clone_from, definition_id_of,
}
use lp_0002_private_multisig.Token.Holdings.{move_holding}
use lp_0002_private_multisig.Token.Accounting.{IsFaithful, total_units, total_issued}
use lp_0002_private_multisig.Token.Conservation.{
  pre_accounts, post_accounts, definitions_of, holdings_of,
}
use lp_0002_private_multisig.Token.Instructions.{run_token_instruction-accounted}

unfoldable pub write_holding : TokenHolding → Bytes
write_holding (fungible_holding id balance) = 0 ∷ balance ∷ id
write_holding (nft_master id prints) = 1 ∷ prints ∷ id
write_holding (nft_printed_copy id false) = 2 ∷ 0 ∷ id
write_holding (nft_printed_copy id true) = 2 ∷ 1 ∷ id

unfoldable pub parse_holding : Bytes → Option TokenHolding
parse_holding (zero ∷ balance ∷ id) = some (fungible_holding id balance)
parse_holding (suc zero ∷ prints ∷ id) = some (nft_master id prints)
parse_holding (suc (suc tag) ∷ zero ∷ id) = some (nft_printed_copy id false)
parse_holding (suc (suc tag) ∷ suc owned ∷ id) = some (nft_printed_copy id true)
parse_holding _ = none

unfoldable pub write_definition : TokenDefinition → Bytes
write_definition (TokenDefinition.fungible name supply none) = 0 ∷ supply ∷ name
write_definition (TokenDefinition.fungible name supply (some id)) =
    1 ∷ supply ∷ length name ∷ (name ++ id)
write_definition (TokenDefinition.non_fungible name supply id) =
    2 ∷ supply ∷ length name ∷ (name ++ id)

unfoldable pub parse_definition : Bytes → Option TokenDefinition
parse_definition (zero ∷ supply ∷ name) = some (TokenDefinition.fungible name supply none)
parse_definition (suc zero ∷ supply ∷ len ∷ bytes) =
    some (TokenDefinition.fungible (take len bytes) supply (some (drop len bytes)))
parse_definition (suc (suc tag) ∷ supply ∷ len ∷ bytes) =
    some (TokenDefinition.non_fungible (take len bytes) supply (drop len bytes))
parse_definition _ = none

abbrev pub toy_codec : Codec
toy_codec = record {
  read_definition = parse_definition;
  definition_bytes = write_definition;
  read_holding = parse_holding;
  holding_bytes = write_holding;
  metadata_bytes = λ metadata. metadata.uri;
}

parse_holding-write_holding : (h : TokenHolding) → parse_holding (write_holding h) ≡ some h
unfolding parse_holding write_holding
parse_holding-write_holding (fungible_holding id balance) = refl
parse_holding-write_holding (nft_master id prints) = refl
parse_holding-write_holding (nft_printed_copy id false) = refl
parse_holding-write_holding (nft_printed_copy id true) = refl

parse_definition-write_definition :
    (d : TokenDefinition) → parse_definition (write_definition d) ≡ some d
unfolding parse_definition write_definition
parse_definition-write_definition (TokenDefinition.fungible name supply none) = refl
parse_definition-write_definition (TokenDefinition.fungible name supply (some id)) =
    rw
      (take-append_length (length name) name id refl, drop-append_length (length name) name id refl)
      refl
parse_definition-write_definition (TokenDefinition.non_fungible name supply id) =
    rw
      (take-append_length (length name) name id refl, drop-append_length (length name) name id refl)
      refl

toy_codec-IsFaithful : IsFaithful toy_codec
unfolding parse_definition parse_holding
toy_codec-IsFaithful = record {
  definition_back = parse_definition-write_definition;
  holding_back = parse_holding-write_holding;
  no_definition = refl;
  no_holding = refl;
}

abbrev token_id : Bytes
token_id = replicate 32 9

abbrev holder : (tokens : ℕ) → Account
holder tokens = record default_account {
  program_owner = replicate 8 5;
  data_bytes = 0 ∷ tokens ∷ token_id;
}

abbrev payer : AccountWithMetadata
payer = record { account = holder 100; is_authorized = true; account_id = replicate 32 1 }

abbrev newcomer : AccountWithMetadata
newcomer = record { account = default_account; is_authorized = true; account_id = replicate 32 2 }

abbrev paid : List AccountPostState
paid =
    new_post_state (holder 70)
    ∷ new_claimed_if_default (record default_account { data_bytes = 0 ∷ 30 ∷ token_id }) authorized
    ∷ []

payment :
    Token.run_token_instruction toy_codec (Instruction.transfer 30) (payer ∷ newcomer ∷ [])
    ≡ ok paid
unfolding Token.run_token_instruction Token.transfer Token.holding_of Token.holding_or Token.store
    move_holding checked_sub checked_add zeroized_clone_from definition_id_of bytes_eq account_eq
    try_into_data parse_holding write_holding new_claimed_if_default
payment = refl

run_token_instruction-accounted_example :
    total_issued toy_codec token_id
        (definitions_of (Instruction.transfer 30) (post_accounts (payer ∷ newcomer ∷ []) paid))
      + total_units toy_codec token_id
          (holdings_of (Instruction.transfer 30) (pre_accounts (payer ∷ newcomer ∷ [])))
    ≡ total_issued toy_codec token_id
        (definitions_of (Instruction.transfer 30) (pre_accounts (payer ∷ newcomer ∷ [])))
      + total_units toy_codec token_id
          (holdings_of (Instruction.transfer 30) (post_accounts (payer ∷ newcomer ∷ []) paid))
run_token_instruction-accounted_example =
    run_token_instruction-accounted toy_codec token_id toy_codec-IsFaithful
      (Instruction.transfer 30) (payer ∷ newcomer ∷ []) payment
