-- ===== src/Token/Accounting.antt =====
-- The accounting of the token program over its accounts.
use lp_0002_private_multisig.Prelude.{
  ℕ, ◌+◌, ◌≡◌, refl, ap, ◌∙◌, Option, none, some, List, [], ◌∷◌, true, Bytes, ok, arith,
}
use lp_0002_private_multisig.Core.Account.{
  Account, AccountId, AccountWithMetadata, default_account, account_eq, account_eq_iff,
}
use lp_0002_private_multisig.Token.Types.{
  TokenDefinition, TokenHolding, fungible_holding, nft_master, nft_printed_copy, Codec,
  zeroized_clone_from, zeroized_from_definition,
}
use lp_0002_private_multisig.Token.Supply.{units, units_of, issued_of, store_lem}
use lp_0002_private_multisig.Token

-- Borsh reads back what it has written, and reads nothing from no bytes.
pub record IsFaithful (codec : Codec) : Type 0 where
  pub definition_back :
      (d : TokenDefinition) → codec.read_definition (codec.definition_bytes d) ≡ some d
  pub holding_back : (h : TokenHolding) → codec.read_holding (codec.holding_bytes h) ≡ some h
  pub no_definition : codec.read_definition [] ≡ none
  pub no_holding : codec.read_holding [] ≡ none

pub zeroized_clone_from-units : (h : TokenHolding) → units (zeroized_clone_from h) ≡ 0
unfolding units zeroized_clone_from
zeroized_clone_from-units (fungible_holding id balance) = refl
zeroized_clone_from-units (nft_master id prints) = refl
zeroized_clone_from-units (nft_printed_copy id owned) = refl

pub zeroized_from_definition-units :
    (id : AccountId) (d : TokenDefinition) → units (zeroized_from_definition id d) ≡ 0
unfolding units zeroized_from_definition
zeroized_from_definition-units id (TokenDefinition.fungible name supply metadata) = refl
zeroized_from_definition-units id (TokenDefinition.non_fungible name supply metadata) = refl

abbrev pub units_or_none : AccountId → Option TokenHolding → ℕ
units_or_none id none = 0
units_or_none id (some h) = units_of id h

abbrev pub issued_or_none : (id i : AccountId) → Option TokenDefinition → ℕ
issued_or_none id i none = 0
issued_or_none id i (some d) = issued_of id i d

-- A holding of nothing has no unit of any token.
pub units_of_none : (id : AccountId) (h : TokenHolding) → units h ≡ 0 → units_of id h ≡ 0
units_of_none id h z = ground (arith, z)

module _ (codec : Codec) (id : AccountId) where
  -- What an account holds of the token `id` as a holding, and what it has issued as the definition of
  -- that token; nothing if its data are no such thing, or of another token.
  abbrev pub units_in : Account → ℕ
  units_in a = units_or_none id (codec.read_holding a.data_bytes)

  abbrev pub issued_in : AccountId → Account → ℕ
  issued_in i a = issued_or_none id i (codec.read_definition a.data_bytes)

  -- The same of accounts with their ids.
  abbrev pub total_units : List (AccountId × Account) → ℕ
  total_units [] = 0
  total_units ((i, a) ∷ l) = units_in a + total_units l

  abbrev pub total_issued : List (AccountId × Account) → ℕ
  total_issued [] = 0
  total_issued ((i, a) ∷ l) = issued_in i a + total_issued l

  module _ (faithful : IsFaithful codec) where
    pub stored_units :
        (account : Account) (h : TokenHolding) {stored : Account}
        → Token.store account (codec.holding_bytes h) ≡ ok stored
        → units_in stored ≡ units_of id h
    stored_units account h e =
        ap (λ (b : Bytes). units_or_none id (codec.read_holding b))
          (store_lem account (codec.holding_bytes h) e)
        ∙ ap (units_or_none id) (faithful.holding_back h)

    pub stored_issued :
        (i : AccountId) (account : Account) (d : TokenDefinition) {stored : Account}
        → Token.store account (codec.definition_bytes d) ≡ ok stored
        → issued_in i stored ≡ issued_of id i d
    stored_issued i account d e =
        ap (λ (b : Bytes). issued_or_none id i (codec.read_definition b))
          (store_lem account (codec.definition_bytes d) e)
        ∙ ap (issued_or_none id i) (faithful.definition_back d)

    pub holding_of_lem :
        (a : AccountWithMetadata) {h : TokenHolding}
        → Token.holding_of codec a ≡ ok h
        → units_in a.account ≡ units_of id h
    unfolding Token.holding_of
    holding_of_lem a e = ground (arith, e)

    pub definition_of_lem :
        (a : AccountWithMetadata) {d : TokenDefinition}
        → Token.definition_of codec a ≡ ok d
        → issued_in a.account_id a.account ≡ issued_of id a.account_id d
    unfolding Token.definition_of
    definition_of_lem a e = ground (arith, e)

    pub default_units : (a : Account) → account_eq a default_account ≡ true → units_in a ≡ 0
    default_units a e =
        ap (λ (b : Account). units_or_none id (codec.read_holding b.data_bytes))
          ((account_eq_iff a default_account).0 e)
        ∙ ap (units_or_none id) faithful.no_holding

    pub default_issued :
        (i : AccountId) (a : Account) → account_eq a default_account ≡ true → issued_in i a ≡ 0
    default_issued i a e =
        ap (λ (b : Account). issued_or_none id i (codec.read_definition b.data_bytes))
          ((account_eq_iff a default_account).0 e)
        ∙ ap (issued_or_none id i) faithful.no_definition

    pub holding_or_lem :
        (a : AccountWithMetadata) (fresh : TokenHolding) {h : TokenHolding}
        → units fresh ≡ 0
        → Token.holding_or codec a fresh ≡ ok h
        → units_in a.account ≡ units_of id h
    unfolding Token.holding_or Token.holding_of
    holding_or_lem a fresh z e =
        ground (arith, e, units_of_none id fresh z, default_units a.account)
