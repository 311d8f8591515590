-- ===== src/State/History.antt =====
-- The transitions of the state (`transition_from_*` of state/mod.rs) and sequences of them.
pub mod Spent
pub mod Programs
use lp_0002_private_multisig.Prelude.{ℕ, zero, suc, ◌≡◌, some, Bytes, ok}
use lp_0002_private_multisig.State.Types.{V03State, StateDiff, PublicTransaction, Host}
use lp_0002_private_multisig.State.Apply.{apply_state_diff}
use lp_0002_private_multisig.State.Public.{from_public_transaction}
use lp_0002_private_multisig.State.Private.{
  PrivacyHost, PrivacyPreservingTransaction, from_privacy_preserving_transaction,
  from_program_deployment_transaction,
}

module _ (host : Host) (privacy : PrivacyHost) where
  -- A diff that some transaction of one of the three kinds is validated to.
  pub data Validates (s : V03State) : StateDiff → Type 0 where
    by_public :
        {diff : StateDiff} (block_id timestamp : ℕ) (tx : PublicTransaction)
        → from_public_transaction host s block_id timestamp tx ≡ ok diff
        → Validates s diff
    by_privacy :
        {diff : StateDiff} (block_id timestamp : ℕ) (tx : PrivacyPreservingTransaction)
        → from_privacy_preserving_transaction privacy s block_id timestamp tx ≡ ok diff
        → Validates s diff
    by_deployment :
        {diff : StateDiff} (bytecode : Bytes)
        → from_program_deployment_transaction privacy s bytecode ≡ ok diff
        → Validates s diff

  -- `transition_from_public_transaction` and its two siblings: validate, then apply.
  pub data History (s : V03State) : V03State → Type 0 where
    start : History s s
    transition :
        {s' s'' : V03State} {diff : StateDiff}
        → History s s'
        → Validates s' diff
        → apply_state_diff host.sha256 s' diff ≡ some s''
        → History s s''
