-- ===== src/Token/Conservation.antt =====
-- The accounting of the token program over its instructions, for one token.
use lp_0002_private_multisig.Prelude.{
  ℕ, ◌+◌, ◌≡◌, bytes_eq_iff, List, [], ◌∷◌, bytes_eq, ok, >>=-eq-ok, ensure-eq-ok, take, drop,
  arith,
}
use lp_0002_private_multisig.Core.Account.{
  Account, AccountId, AccountWithMetadata, default_account, account_eq,
}
use lp_0002_private_multisig.Core.Program.{AccountPostState, new_claimed_if_default}
use lp_0002_private_multisig.Token.Types.{
  missing_authorization, account_in_use, definition_mismatch, Instruction, Codec,
  zeroized_clone_from, zeroized_from_definition, definition_id_of,
}
use lp_0002_private_multisig.Token.Holdings.{
  move_holding, mint_holding, burn_holding, print_holding,
}
use lp_0002_private_multisig.Token.Supply.{
  move_holding-units, mint_holding-units, burn_holding-units, print_holding-units,
}
use lp_0002_private_multisig.Token.Accounting.{
  IsFaithful, zeroized_clone_from-units, zeroized_from_definition-units, units_of_none, units_in,
  issued_in, total_units, total_issued, stored_units, stored_issued, holding_of_lem,
  definition_of_lem, default_units, holding_or_lem,
}
use lp_0002_private_multisig.Token

-- The accounts before and after, with their ids.
abbrev pub pre_accounts : List AccountWithMetadata → List (AccountId × Account)
pre_accounts [] = []
pre_accounts (pre ∷ pres) = (pre.account_id, pre.account) ∷ pre_accounts pres

abbrev pub post_accounts :
    List AccountWithMetadata → List AccountPostState → List (AccountId × Account)
post_accounts (pre ∷ pres) (post ∷ posts) =
    (pre.account_id, post.account) ∷ post_accounts pres posts
post_accounts _ _ = []

-- The accounts of an instruction that are token definitions, and those that are token holdings.
abbrev pub definitions_of : Instruction → List (AccountId × Account) → List (AccountId × Account)
definitions_of (Instruction.transfer amount) accounts = []
definitions_of Instruction.print_nft accounts = []
definitions_of _ accounts = take 1 accounts

abbrev pub holdings_of : Instruction → List (AccountId × Account) → List (AccountId × Account)
holdings_of (Instruction.transfer amount) accounts = accounts
holdings_of Instruction.print_nft accounts = accounts
holdings_of _ accounts = take 1 (drop 1 accounts)

module _ (codec : Codec) (id : AccountId) (faithful : IsFaithful codec) where
  pub transfer-units :
      (sender recipient : AccountWithMetadata) (amount : ℕ) {posts : List AccountPostState}
      → Token.transfer codec sender recipient amount ≡ ok posts
      → total_units codec id (post_accounts (sender ∷ recipient ∷ []) posts)
        ≡ total_units codec id (pre_accounts (sender ∷ recipient ∷ []))
  unfolding Token.transfer new_claimed_if_default
  transfer-units sender recipient amount h =
      let (_, h0) = ensure-eq-ok sender.is_authorized missing_authorization _ h in
      let (s, e1, h1) = >>=-eq-ok (Token.holding_of codec sender) _ h0 in
      let (r, e2, h2) = >>=-eq-ok (Token.holding_or codec recipient (zeroized_clone_from s)) _ h1 in
      let (same, h3) =
        ensure-eq-ok (bytes_eq (definition_id_of s) (definition_id_of r)) definition_mismatch _
          h2 in
      let ((left, received), e4, h4) = >>=-eq-ok (move_holding s r amount) _ h3 in
      let (a, e5, h5) = >>=-eq-ok (Token.store sender.account (codec.holding_bytes left)) _ h4 in
      let (b, e6, h6) =
        >>=-eq-ok (Token.store recipient.account (codec.holding_bytes received)) _ h5 in
      let before = holding_of_lem codec id faithful sender e1 in
      let before' =
        holding_or_lem codec id faithful recipient (zeroized_clone_from s)
          (zeroized_clone_from-units s) e2 in
      let after = stored_units codec id faithful sender.account left e5 in
      let after' = stored_units codec id faithful recipient.account received e6 in
      let moved =
        move_holding-units id s r amount
          ((bytes_eq_iff (definition_id_of s) (definition_id_of r)).0 same) e4 in
      ground (arith, h6, before, before', after, after', moved)

  -- The balance of a definition and a holding: what is issued more is held more.
  abbrev pub Balances :
      AccountWithMetadata
      → AccountWithMetadata
      → (others : List AccountWithMetadata) → List AccountPostState
      → Type 0
  Balances definition holding others posts =
      total_issued codec id (take 1 (post_accounts (definition ∷ holding ∷ others) posts))
        + units_in codec id holding.account
      ≡ issued_in codec id definition.account_id definition.account
        + total_units codec id
            (take 1 (drop 1 (post_accounts (definition ∷ holding ∷ others) posts)))

  pub mint-Balances :
      (definition holding : AccountWithMetadata) (amount : ℕ) {posts : List AccountPostState}
      → Token.mint codec definition holding amount ≡ ok posts
      → Balances definition holding [] posts
  unfolding Token.mint new_claimed_if_default
  mint-Balances definition holding amount h =
      let (_, h0) = ensure-eq-ok definition.is_authorized missing_authorization _ h in
      let (d, e1, h1) = >>=-eq-ok (Token.definition_of codec definition) _ h0 in
      let fresh = zeroized_from_definition definition.account_id d in
      let (r, e2, h2) = >>=-eq-ok (Token.holding_or codec holding fresh) _ h1 in
      let (same, h3) =
        ensure-eq-ok (bytes_eq definition.account_id (definition_id_of r)) definition_mismatch _
          h2 in
      let ((d', r'), e4, h4) = >>=-eq-ok (mint_holding d r amount) _ h3 in
      let (a, e5, h5) =
        >>=-eq-ok (Token.store definition.account (codec.definition_bytes d')) _ h4 in
      let (b, e6, h6) = >>=-eq-ok (Token.store holding.account (codec.holding_bytes r')) _ h5 in
      let before = definition_of_lem codec id faithful definition e1 in
      let before' =
        holding_or_lem codec id faithful holding fresh
          (zeroized_from_definition-units definition.account_id d) e2 in
      let after = stored_issued codec id faithful definition.account_id definition.account d' e5 in
      let after' = stored_units codec id faithful holding.account r' e6 in
      let minted =
        mint_holding-units id definition.account_id d r amount
          ((bytes_eq_iff definition.account_id (definition_id_of r)).0 same) e4 in
      ground (arith, h6, before, before', after, after', minted)

  pub burn-Balances :
      (definition holding : AccountWithMetadata) (amount : ℕ) {posts : List AccountPostState}
      → Token.burn codec definition holding amount ≡ ok posts
      → Balances definition holding [] posts
  unfolding Token.burn
  burn-Balances definition holding amount h =
      let (_, h0) = ensure-eq-ok holding.is_authorized missing_authorization _ h in
      let (d, e1, h1) = >>=-eq-ok (Token.definition_of codec definition) _ h0 in
      let (r, e2, h2) = >>=-eq-ok (Token.holding_of codec holding) _ h1 in
      let (same, h3) =
        ensure-eq-ok (bytes_eq definition.account_id (definition_id_of r)) definition_mismatch _
          h2 in
      let ((d', r'), e4, h4) = >>=-eq-ok (burn_holding d r amount) _ h3 in
      let (a, e5, h5) =
        >>=-eq-ok (Token.store definition.account (codec.definition_bytes d')) _ h4 in
      let (b, e6, h6) = >>=-eq-ok (Token.store holding.account (codec.holding_bytes r')) _ h5 in
      let before = definition_of_lem codec id faithful definition e1 in
      let before' = holding_of_lem codec id faithful holding e2 in
      let after = stored_issued codec id faithful definition.account_id definition.account d' e5 in
      let after' = stored_units codec id faithful holding.account r' e6 in
      let burnt =
        burn_holding-units id definition.account_id d r amount
          ((bytes_eq_iff definition.account_id (definition_id_of r)).0 same) e4 in
      ground (arith, h6, before, before', after, after', burnt)

  pub initialize_account-Balances :
      (definition holding : AccountWithMetadata) {posts : List AccountPostState}
      → Token.initialize_account codec definition holding ≡ ok posts
      → Balances definition holding [] posts
  unfolding Token.initialize_account
  initialize_account-Balances definition holding h =
      let (empty, h0) =
        ensure-eq-ok (account_eq holding.account default_account) account_in_use _ h in
      let (d, e1, h1) = >>=-eq-ok (Token.definition_of codec definition) _ h0 in
      let fresh = zeroized_from_definition definition.account_id d in
      let (b, e2, h2) = >>=-eq-ok (Token.store holding.account (codec.holding_bytes fresh)) _ h1 in
      let before' = default_units codec id faithful holding.account empty in
      let after' = stored_units codec id faithful holding.account fresh e2 in
      let nothing = zeroized_from_definition-units definition.account_id d in
      let none_held = units_of_none id fresh nothing in
      ground (arith, h2, before', after', none_held)

  pub print_nft-units :
      (master printed : AccountWithMetadata) {posts : List AccountPostState}
      → Token.print_nft codec master printed ≡ ok posts
      → total_units codec id (post_accounts (master ∷ printed ∷ []) posts)
        ≡ total_units codec id (pre_accounts (master ∷ printed ∷ []))
  unfolding Token.print_nft
  print_nft-units master printed h =
      let (_, h0) = ensure-eq-ok master.is_authorized missing_authorization _ h in
      let (empty, h1) =
        ensure-eq-ok (account_eq printed.account default_account) account_in_use _ h0 in
      let (m, e2, h2) = >>=-eq-ok (Token.holding_of codec master) _ h1 in
      let ((m', c), e3, h3) = >>=-eq-ok (print_holding m) _ h2 in
      let (a, e4, h4) = >>=-eq-ok (Token.store master.account (codec.holding_bytes m')) _ h3 in
      let (b, e5, h5) = >>=-eq-ok (Token.store printed.account (codec.holding_bytes c)) _ h4 in
      let before = holding_of_lem codec id faithful master e2 in
      let before' = default_units codec id faithful printed.account empty in
      let after = stored_units codec id faithful master.account m' e4 in
      let after' = stored_units codec id faithful printed.account c e5 in
      let printed_one = print_holding-units id m e3 in
      ground (arith, h5, before, before', after, after', printed_one)
