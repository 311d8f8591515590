-- ===== src/Token/Creation.antt =====
-- The accounting of the token program where a token is created.
use lp_0002_private_multisig.Prelude.{
  ℕ, ◌+◌, ◌≡◌, refl, none, List, [], ◌∷◌, true, Bytes, ok, >>=-eq-ok, ensure-eq-ok, arith,
}
use lp_0002_private_multisig.Core.Account.{
  Account, AccountId, AccountWithMetadata, default_account, account_eq,
}
use lp_0002_private_multisig.Core.Program.{AccountPostState}
use lp_0002_private_multisig.Token.Types.{
  account_in_use, TokenDefinition, TokenHolding, fungible_holding, NewTokenDefinition,
  NewTokenMetadata, Codec, definition_id_of,
}
use lp_0002_private_multisig.Token.Holdings.{new_token}
use lp_0002_private_multisig.Token.Supply.{units, issued, new_token-units, new_token-id}
use lp_0002_private_multisig.Token.Accounting.{
  IsFaithful, units_in, issued_in, stored_units, stored_issued, default_units, default_issued,
}
use lp_0002_private_multisig.Token
use lp_0002_private_multisig.Token.Conservation.{Balances}

module _ (codec : Codec) (id : AccountId) (faithful : IsFaithful codec) where
  -- Two default accounts become the definition `d` and the holding `r` of all that it has issued.
  created-Balances :
      (definition holding : AccountWithMetadata) (d : TokenDefinition) (r : TokenHolding)
      {a b : Account}
      → account_eq definition.account default_account ≡ true
      → account_eq holding.account default_account ≡ true
      → Token.store definition.account (codec.definition_bytes d) ≡ ok a
      → Token.store holding.account (codec.holding_bytes r) ≡ ok b
      → definition_id_of r ≡ definition.account_id
      → issued d ≡ units r
      → issued_in codec id definition.account_id a + units_in codec id holding.account
        ≡ issued_in codec id definition.account_id definition.account + units_in codec id b
  created-Balances definition holding d r empty empty' e e' own same = ground (
    arith,
    default_issued codec id faithful definition.account_id definition.account empty,
    default_units codec id faithful holding.account empty',
    stored_issued codec id faithful definition.account_id definition.account d e,
    stored_units codec id faithful holding.account r e',
    own,
    same,
  )

  pub new_fungible_definition-Balances :
      (definition holding : AccountWithMetadata) (name : Bytes) (supply : ℕ)
      {posts : List AccountPostState}
      → Token.new_fungible_definition codec definition holding name supply ≡ ok posts
      → Balances codec id faithful definition holding [] posts
  unfolding Token.new_fungible_definition units issued definition_id_of
  new_fungible_definition-Balances definition holding name supply h =
      let d = TokenDefinition.fungible name supply none in
      let r = fungible_holding definition.account_id supply in
      let (empty, h0) =
        ensure-eq-ok (account_eq definition.account default_account) account_in_use _ h in
      let (empty', h1) =
        ensure-eq-ok (account_eq holding.account default_account) account_in_use _ h0 in
      let (a, e2, h2) =
        >>=-eq-ok (Token.store definition.account (codec.definition_bytes d)) _ h1 in
      let (b, e3, h3) = >>=-eq-ok (Token.store holding.account (codec.holding_bytes r)) _ h2 in
      let both = created-Balances definition holding d r empty empty' e2 e3 refl refl in
      ground (arith, h3, both)

  pub new_definition_with_metadata-Balances :
      (definition holding metadata_account : AccountWithMetadata) (new : NewTokenDefinition)
      (metadata : NewTokenMetadata) {posts : List AccountPostState}
      → Token.new_definition_with_metadata codec definition holding metadata_account new metadata
        ≡ ok posts
      → Balances codec id faithful definition holding (metadata_account ∷ []) posts
  unfolding Token.new_definition_with_metadata
  new_definition_with_metadata-Balances definition holding metadata_account new metadata h =
      let (d, r) = new_token new definition.account_id metadata_account.account_id in
      let (empty, h0) =
        ensure-eq-ok (account_eq definition.account default_account) account_in_use _ h in
      let (empty', h1) =
        ensure-eq-ok (account_eq holding.account default_account) account_in_use _ h0 in
      let (_, h2) =
        ensure-eq-ok (account_eq metadata_account.account default_account) account_in_use _ h1 in
      let (a, e3, h3) =
        >>=-eq-ok (Token.store definition.account (codec.definition_bytes d)) _ h2 in
      let (b, e4, h4) = >>=-eq-ok (Token.store holding.account (codec.holding_bytes r)) _ h3 in
      let (c, e5, h5) = >>=-eq-ok (Token.store metadata_account.account _) _ h4 in
      let both =
        created-Balances definition holding d r empty empty' e3 e4
          (new_token-id new definition.account_id metadata_account.account_id)
          (new_token-units new definition.account_id metadata_account.account_id) in
      ground (arith, h5, both)
