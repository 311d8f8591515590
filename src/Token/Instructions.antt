-- ===== src/Token/Instructions.antt =====
-- The accounting of one token over `run_token_instruction`.
use lp_0002_private_multisig.Prelude.{◌+◌, ◌≡◌, List, [], ◌∷◌, ok, arith}
use lp_0002_private_multisig.Core.Account.{AccountId, AccountWithMetadata}
use lp_0002_private_multisig.Core.Program.{AccountPostState}
use lp_0002_private_multisig.Token.Types.{Instruction, Codec}
use lp_0002_private_multisig.Token.Accounting.{IsFaithful, total_units, total_issued}
use lp_0002_private_multisig.Token.Conservation.{
  pre_accounts, post_accounts, definitions_of, holdings_of, transfer-units, mint-Balances,
  burn-Balances, initialize_account-Balances, print_nft-units,
}
use lp_0002_private_multisig.Token.Creation.{
  new_fungible_definition-Balances, new_definition_with_metadata-Balances,
}
use lp_0002_private_multisig.Token

module _ (codec : Codec) (id : AccountId) (faithful : IsFaithful codec) where
  -- If borsh reads back what it has written, and reads nothing from no bytes, then for every token
  -- every instruction of the token program that succeeds, on any accounts, changes the supply in the
  -- definition of that token by exactly what it changes the units of that token in the holdings, both
  -- counted over the accounts that the instruction takes as a definition and as holdings. The
  -- definition of a token is the one in the account whose id the holdings name.
  pub run_token_instruction-accounted :
      (instruction : Instruction) (pres : List AccountWithMetadata) {posts : List AccountPostState}
      → Token.run_token_instruction codec instruction pres ≡ ok posts
      → total_issued codec id (definitions_of instruction (post_accounts pres posts))
          + total_units codec id (holdings_of instruction (pre_accounts pres))
        ≡ total_issued codec id (definitions_of instruction (pre_accounts pres))
          + total_units codec id (holdings_of instruction (post_accounts pres posts))
  unfolding Token.run_token_instruction
  run_token_instruction-accounted (Instruction.transfer amount) (x ∷ y ∷ []) h =
      omega (arith, transfer-units codec id faithful x y amount h)
  run_token_instruction-accounted (Instruction.transfer amount) [] h = absurd (ground (arith, h))
  run_token_instruction-accounted (Instruction.transfer amount) (x ∷ []) h =
      absurd (ground (arith, h))
  run_token_instruction-accounted (Instruction.transfer amount) (x ∷ y ∷ z ∷ rest) h =
      absurd (ground (arith, h))
  run_token_instruction-accounted Instruction.print_nft (x ∷ y ∷ []) h =
      omega (arith, print_nft-units codec id faithful x y h)
  run_token_instruction-accounted Instruction.print_nft [] h = absurd (ground (arith, h))
  run_token_instruction-accounted Instruction.print_nft (x ∷ []) h = absurd (ground (arith, h))
  run_token_instruction-accounted Instruction.print_nft (x ∷ y ∷ z ∷ rest) h =
      absurd (ground (arith, h))
  run_token_instruction-accounted (Instruction.mint amount) (x ∷ y ∷ []) h =
      omega (arith, mint-Balances codec id faithful x y amount h)
  run_token_instruction-accounted (Instruction.mint amount) [] h = absurd (ground (arith, h))
  run_token_instruction-accounted (Instruction.mint amount) (x ∷ []) h = absurd (ground (arith, h))
  run_token_instruction-accounted (Instruction.mint amount) (x ∷ y ∷ z ∷ rest) h =
      absurd (ground (arith, h))
  run_token_instruction-accounted (Instruction.burn amount) (x ∷ y ∷ []) h =
      omega (arith, burn-Balances codec id faithful x y amount h)
  run_token_instruction-accounted (Instruction.burn amount) [] h = absurd (ground (arith, h))
  run_token_instruction-accounted (Instruction.burn amount) (x ∷ []) h = absurd (ground (arith, h))
  run_token_instruction-accounted (Instruction.burn amount) (x ∷ y ∷ z ∷ rest) h =
      absurd (ground (arith, h))
  run_token_instruction-accounted Instruction.initialize_account (x ∷ y ∷ []) h =
      omega (arith, initialize_account-Balances codec id faithful x y h)
  run_token_instruction-accounted Instruction.initialize_account [] h = absurd (ground (arith, h))
  run_token_instruction-accounted Instruction.initialize_account (x ∷ []) h =
      absurd (ground (arith, h))
  run_token_instruction-accounted Instruction.initialize_account (x ∷ y ∷ z ∷ rest) h =
      absurd (ground (arith, h))
  run_token_instruction-accounted (Instruction.new_fungible_definition name supply) (x ∷ y ∷ []) h =
      omega (arith, new_fungible_definition-Balances codec id faithful x y name supply h)
  run_token_instruction-accounted (Instruction.new_fungible_definition name supply) [] h =
      absurd (ground (arith, h))
  run_token_instruction-accounted (Instruction.new_fungible_definition name supply) (x ∷ []) h =
      absurd (ground (arith, h))
  run_token_instruction-accounted (Instruction.new_fungible_definition name supply)
        (x ∷ y ∷ z ∷ rest) h =
      absurd (ground (arith, h))
  run_token_instruction-accounted (Instruction.new_definition_with_metadata new metadata)
        (x ∷ y ∷ z ∷ []) h =
      omega (arith, new_definition_with_metadata-Balances codec id faithful x y z new metadata h)
  run_token_instruction-accounted (Instruction.new_definition_with_metadata new metadata) [] h =
      absurd (ground (arith, h))
  run_token_instruction-accounted (Instruction.new_definition_with_metadata new metadata) (x ∷ [])
        h =
      absurd (ground (arith, h))
  run_token_instruction-accounted (Instruction.new_definition_with_metadata new metadata)
        (x ∷ y ∷ []) h =
      absurd (ground (arith, h))
  run_token_instruction-accounted (Instruction.new_definition_with_metadata new metadata)
        (x ∷ y ∷ z ∷ w ∷ rest) h =
      absurd (ground (arith, h))
