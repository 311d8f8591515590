-- ===== src/Token/Holdings.antt =====
-- What the token program computes on definitions and holdings: the matches of transfer.rs, mint.rs,
-- burn.rs, print_nft.rs and new_definition.rs of lez/programs/token/src.
use lp_0002_private_multisig.Prelude.{
  ℕ, ◌-◌, some, true, false, not, ltb, ◌==◌, Result, ok, err, ◌>>=◌, ◌>>◌, ensure, ok_or,
}
use lp_0002_private_multisig.Core.Account.{AccountId}
use lp_0002_private_multisig.AuthenticatedTransfer.{checked_sub, checked_add}
use lp_0002_private_multisig.Token.Types.{
  TokenPanic, insufficient_balance, balance_overflow, supply_overflow, supply_underflow,
  invalid_nft_amount, copy_not_owned, copy_already_owned, holding_kind_mismatch, cannot_mint_nft,
  not_a_master, no_copy_left, TokenDefinition, TokenHolding, fungible_holding, nft_master,
  nft_printed_copy, NewTokenDefinition,
}

-- The `match` of `transfer`.
unfoldable pub move_holding :
    TokenHolding → TokenHolding → ℕ → Result TokenPanic (TokenHolding × TokenHolding)
move_holding (fungible_holding id sender) (fungible_holding id' recipient) amount = do
  left ← ok_or (checked_sub sender amount) insufficient_balance
  received ← ok_or (checked_add recipient amount) balance_overflow
  ok (fungible_holding id left, fungible_holding id' received)
move_holding (nft_master id sender) (nft_master id' recipient) amount = do
  ensure (recipient == 0) invalid_nft_amount
  ensure (sender == amount) invalid_nft_amount
  ok (nft_master id recipient, nft_master id' sender)
move_holding (nft_printed_copy id sender) (nft_printed_copy id' recipient) amount = do
  ensure (amount == 1) invalid_nft_amount
  ensure sender copy_not_owned
  ensure (not recipient) copy_already_owned
  ok (nft_printed_copy id false, nft_printed_copy id' true)
move_holding _ _ amount = err holding_kind_mismatch

-- The `match` of `mint`.
unfoldable pub mint_holding :
    TokenDefinition → TokenHolding → ℕ → Result TokenPanic (TokenDefinition × TokenHolding)
mint_holding (TokenDefinition.fungible name supply metadata) (fungible_holding id balance) amount =
    do
      held ← ok_or (checked_add balance amount) balance_overflow
      supply' ← ok_or (checked_add supply amount) supply_overflow
      ok (TokenDefinition.fungible name supply' metadata, fungible_holding id held)
mint_holding (TokenDefinition.non_fungible name supply metadata) (nft_master id prints) amount =
    err cannot_mint_nft
mint_holding (TokenDefinition.non_fungible name supply metadata) (nft_printed_copy id owned)
      amount =
    err cannot_mint_nft
mint_holding _ _ amount = err holding_kind_mismatch

-- The `match` of `burn`.
unfoldable pub burn_holding :
    TokenDefinition → TokenHolding → ℕ → Result TokenPanic (TokenDefinition × TokenHolding)
burn_holding (TokenDefinition.fungible name supply metadata) (fungible_holding id balance) amount =
    do
      held ← ok_or (checked_sub balance amount) insufficient_balance
      supply' ← ok_or (checked_sub supply amount) supply_underflow
      ok (TokenDefinition.fungible name supply' metadata, fungible_holding id held)
burn_holding (TokenDefinition.non_fungible name supply metadata) (nft_master id prints) amount = do
  supply' ← ok_or (checked_sub supply amount) supply_underflow
  held ← ok_or (checked_sub prints amount) insufficient_balance
  ok (TokenDefinition.non_fungible name supply' metadata, nft_master id held)
burn_holding (TokenDefinition.non_fungible name supply metadata) (nft_printed_copy id owned)
      amount =
    do
      ensure (amount == 1) invalid_nft_amount
      ensure owned copy_not_owned
      supply' ← ok_or (checked_sub supply 1) supply_underflow
      ok (TokenDefinition.non_fungible name supply' metadata, nft_printed_copy id false)
burn_holding _ _ amount = err holding_kind_mismatch

-- The `let else` of `print_nft` and what follows it: the master and the printed copy.
unfoldable pub print_holding : TokenHolding → Result TokenPanic (TokenHolding × TokenHolding)
print_holding (nft_master id prints) = do
  ensure (ltb 1 prints) no_copy_left
  ok (nft_master id (prints - 1), nft_printed_copy id true)
print_holding _ = err not_a_master

-- The `match` of `new_definition_with_metadata`, for the ids of the three accounts.
unfoldable pub new_token :
    NewTokenDefinition
    → (definition_id : AccountId) (metadata_id : AccountId) → TokenDefinition × TokenHolding
new_token (NewTokenDefinition.fungible name supply) definition_id metadata_id =
    (TokenDefinition.fungible name supply (some metadata_id), fungible_holding definition_id supply)
new_token (NewTokenDefinition.non_fungible name supply) definition_id metadata_id =
    (TokenDefinition.non_fungible name supply metadata_id, nft_master definition_id supply)
