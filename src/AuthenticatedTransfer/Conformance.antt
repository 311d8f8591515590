-- ===== src/AuthenticatedTransfer/Conformance.antt =====
-- The outputs of the transfer program keep the rules of execution.
use lp_0002_private_multisig.Prelude.{
  ℕ, ◌≡◌, ◌≢◌, ◌⊎◌, List, [], ◌∷◌, arith, ok, bytes_eq_iff, contains,
}
use lp_0002_private_multisig.Core.Account.{
  ProgramId, AccountWithMetadata, default_account, default_program_id,
}
use lp_0002_private_multisig.Core.Program.{AccountPostState}
use lp_0002_private_multisig.Core.Validation.Rules.{IsWellBehaved}
use lp_0002_private_multisig.AuthenticatedTransfer.{
  Instruction, transfer_balance, recipient_post_state, run_instruction,
}

-- If a transfer between two different accounts succeeds, where the sender's account is owned by the
-- executing program, which is not the default one, and the recipient's is uninitialized or owned by
-- a program other than the default one, then the output keeps all rules of execution.
pub transfer-IsWellBehaved :
    (sender recipient : AccountWithMetadata) (amount : ℕ) (executing : ProgramId)
    {posts : List AccountPostState}
    → sender.account_id ≢ recipient.account_id
    → sender.account.program_owner ≡ executing
    → executing ≢ default_program_id
    → (recipient.account ≡ default_account) ⊎ (recipient.account.program_owner ≢ default_program_id)
    → run_instruction (Instruction.transfer amount) (sender ∷ recipient ∷ []) ≡ ok posts
    → IsWellBehaved (sender ∷ recipient ∷ []) posts executing
unfolding run_instruction transfer_balance recipient_post_state contains
transfer-IsWellBehaved sender recipient amount executing differ owned real receiver h = ground (
  arith,
  bytes_eq_iff sender.account_id recipient.account_id,
  bytes_eq_iff recipient.account_id sender.account_id,
)
