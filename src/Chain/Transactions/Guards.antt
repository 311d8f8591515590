-- ===== src/Chain/Transactions/Guards.antt =====
-- What the guards of `execute_check_on_state` keep: the clock, the faucet and the bridge.
use lp_0002_private_multisig.Prelude.{
  ℕ, ◌≤◌, ◌≡◌, ap, sym, ◌∙◌, true, some, List, [], ◌∷◌, IsDistinct, Option-cases, All, Result, ok,
  err, >>=-eq-ok, inl, inr, ◌⊎◌, arith,
}
use lp_0002_private_multisig.Prelude.HashMap
use lp_0002_private_multisig.Prelude.HashMap.{HashMap}
use lp_0002_private_multisig.Core.Account.{AccountId, Account, account_eq_iff}
use lp_0002_private_multisig.State.Types.{V03State, StateDiff, get_account_by_id}
use lp_0002_private_multisig.State.Apply.{apply_state_diff}
use lp_0002_private_multisig.State.Totals.{keys}
use lp_0002_private_multisig.State.Checks.{expected_pre}
use lp_0002_private_multisig.State.Private.{from_program_deployment_transaction}
use lp_0002_private_multisig.State.Private.Rules.{from_privacy_preserving_transaction_iff}
use lp_0002_private_multisig.State.Public.Round.{DecodesBalances}
use lp_0002_private_multisig.State.Public.Conservation.{validated-IsSound}
use lp_0002_private_multisig.Chain.Types.{
  ChainHost, LeeTransaction, public_transaction, privacy_preserving, program_deployment, with_error,
  bridge_account_id,
}
use lp_0002_private_multisig.Chain.Transactions.{
  is_public, validate_restricted, only_balance_increased, restricted_account_ids,
  validate_bridge_account_modification, compute_state_diff, validate_on_state, apply_or_panic,
  execute_check_on_state,
}
use lp_0002_private_multisig.Chain.Transactions.Effects.{
  SameButNonce, collect_actions-IsDistinct, apply_state_diff-SameButNonce, validate_restricted_lem,
}

-- The bridge's account: untouched, or credited by a public transaction that leaves the rest of it.
record Credited (tx : LeeTransaction) (before expected : Account) : Type 0 where
  public_only : (is_public tx ≡ true) ⊎ (expected ≡ before)
  owner : expected.program_owner ≡ before.program_owner
  data_kept : expected.data_bytes ≡ before.data_bytes
  balance : before.balance ≤ expected.balance

only_balance_increased_lem :
    (pre post : Account)
    → only_balance_increased pre post ≡ true
    → (record post { balance = pre.balance } ≡ pre) × (pre.balance ≤ post.balance)
unfolding only_balance_increased
only_balance_increased_lem pre post h = (
  (account_eq_iff (record post { balance = pre.balance }) pre).0 (ground (arith, h)),
  ground (arith, h),
)

module _ (chain : ChainHost) (state : V03State) where
  validate_bridge-Credited :
      (tx : LeeTransaction) (diff : StateDiff)
      → validate_bridge_account_modification chain tx state diff ≡ ok tt
      → let bridge = bridge_account_id chain in
        Credited tx
          (get_account_by_id state bridge)
          (expected_pre state.public_state diff.public_diff bridge)
  unfolding validate_bridge_account_modification
  validate_bridge-Credited tx diff h =
      let bridge = bridge_account_id chain in
      let before = get_account_by_id state bridge in
      elim (Option-cases (HashMap.get diff.public_diff bridge)) [
        | inl untouched ↦ record {
          public_only = inr (ground (arith, untouched));
          owner = ground (arith, untouched);
          data_kept = ground (arith, untouched);
          balance = ground (arith, untouched);
        }
        | inr (post, e) ↦
            let (kept, more) = only_balance_increased_lem before post (ground (arith, h, e)) in
            record {
              public_only = inl (ground (arith, h, e));
              owner = ground (arith, e, ap (λ (a : Account). a.program_owner) kept);
              data_kept = ground (arith, e, ap (λ (a : Account). a.data_bytes) kept);
              balance = ground (arith, e, more);
            }
      ]

  module _ (block_id timestamp : ℕ) where
    compute_state_diff-IsDistinct :
        (tx : LeeTransaction) {diff : StateDiff}
        → DecodesBalances chain.host
        → compute_state_diff chain state block_id timestamp tx ≡ ok diff
        → IsDistinct (keys diff.public_diff)
    unfolding compute_state_diff from_program_deployment_transaction
    compute_state_diff-IsDistinct (public_transaction tx) decodes h =
        (validated-IsSound chain.host state block_id timestamp tx decodes h).distinct
    compute_state_diff-IsDistinct (privacy_preserving tx) {diff} decodes h =
        let own =
          (from_privacy_preserving_transaction_iff chain.privacy state block_id timestamp tx diff).0
            h in
        rw (own.1) (collect_actions-IsDistinct [] tx.message.public_actions tt)
    compute_state_diff-IsDistinct (program_deployment bytecode) {diff} decodes h =
        let none_written : diff.public_diff ≡ [] = ground (arith, h) in rw none_written tt

-- What a user's transaction leaves alone: the restricted accounts, but for their nonces; and of the
-- bridge's account all but the nonce and a balance that a public transaction may raise.
pub record Guarded (chain : ChainHost) (tx : LeeTransaction) (state after : V03State) : Type 0 where
  pub restricted :
      All
        (λ id. SameButNonce (get_account_by_id state id) (get_account_by_id after id))
        (restricted_account_ids chain)
  pub bridge_owner :
      (get_account_by_id after (bridge_account_id chain)).program_owner
      ≡ (get_account_by_id state (bridge_account_id chain)).program_owner
  pub bridge_data :
      (get_account_by_id after (bridge_account_id chain)).data_bytes
      ≡ (get_account_by_id state (bridge_account_id chain)).data_bytes
  pub bridge_balance :
      (get_account_by_id state (bridge_account_id chain)).balance
      ≤ (get_account_by_id after (bridge_account_id chain)).balance
  pub bridge_public :
      (is_public tx ≡ true)
      ⊎ SameButNonce
          (get_account_by_id state (bridge_account_id chain))
          (get_account_by_id after (bridge_account_id chain))

same_everywhere :
    (expected before after : AccountId → Account) (ids : List AccountId)
    → All (λ id. expected id ≡ before id) ids
    → ((id : AccountId) → SameButNonce (expected id) (after id))
    → All (λ id. SameButNonce (before id) (after id)) ids
same_everywhere expected before after [] same h = tt
same_everywhere expected before after (id ∷ ids) (first, rest) h =
    (rw (sym first) (h id), same_everywhere expected before after ids rest h)

validate_on_state_inv :
    (chain : ChainHost) (state : V03State) (block_id timestamp : ℕ) (tx : LeeTransaction)
    {diff : StateDiff}
    → validate_on_state chain state block_id timestamp tx ≡ ok diff
    → (compute_state_diff chain state block_id timestamp tx ≡ ok diff)
      × (validate_restricted state diff (restricted_account_ids chain) ≡ ok tt)
      × (validate_bridge_account_modification chain tx state diff ≡ ok tt)
unfolding validate_on_state
validate_on_state_inv chain state block_id timestamp tx {diff} h =
    let (d, e, h1) = >>=-eq-ok (compute_state_diff chain state block_id timestamp tx) _ h in
    let (u, e1, h2) = >>=-eq-ok (validate_restricted state d (restricted_account_ids chain)) _ h1 in
    let (v, e2, h3) = >>=-eq-ok (validate_bridge_account_modification chain tx state d) _ h2 in
    let same : d ≡ diff = ground (arith, h3) in rw (sym same) (e, e1, e2)

with_error-ok :
    {E F A : Type 0} (name : E → F) (call : Result E A) {value : A}
    → with_error name call ≡ ok value
    → call ≡ ok value
with_error-ok name (err e) h = cc h
with_error-ok name (ok a) h = ground (arith, h)

-- A user's transaction that is executed with the checks leaves the clock's accounts and the faucet's as
-- they were, but for their nonces, and takes nothing from the bridge's account: its owner and its data
-- stay, its balance does not fall, and it rises only under a public transaction. Journals have u128
-- balances.
pub execute_check_on_state-Guarded :
    (chain : ChainHost) (state : V03State) (block_id timestamp : ℕ) (tx : LeeTransaction)
    {after : V03State}
    → DecodesBalances chain.host
    → execute_check_on_state chain state block_id timestamp tx ≡ ok after
    → Guarded chain tx state after
unfolding execute_check_on_state apply_or_panic
execute_check_on_state-Guarded chain state block_id timestamp tx {after} decodes h =
    let (diff, checked, h1) =
      >>=-eq-ok (with_error (λ e. e) (validate_on_state chain state block_id timestamp tx)) _ h in
    let (computed, guards, bridge) =
      validate_on_state_inv chain state block_id timestamp tx {diff = diff}
        (with_error-ok (λ e. e) (validate_on_state chain state block_id timestamp tx) checked) in
    let applies : apply_state_diff chain.host.sha256 state diff ≡ some after = ground (arith, h1) in
    let distinct =
      compute_state_diff-IsDistinct chain state block_id timestamp tx decodes computed in
    let expected = expected_pre state.public_state diff.public_diff in
    let written : (id : AccountId) → SameButNonce (expected id) (get_account_by_id after id) =
      λ id. apply_state_diff-SameButNonce chain.host.sha256 state diff id distinct applies in
    let id = bridge_account_id chain in
    let credit = validate_bridge-Credited chain state tx diff bridge in
    let same = written id in
    record {
      restricted =
          same_everywhere expected (get_account_by_id state) (get_account_by_id after)
            (restricted_account_ids chain)
            (validate_restricted_lem state diff (restricted_account_ids chain) guards) written;
      bridge_owner = sym same.same_owner ∙ credit.owner;
      bridge_data = sym same.same_data ∙ credit.data_kept;
      bridge_balance = rw (sym same.same_balance) credit.balance;
      bridge_public = elim credit.public_only [
        | inl is ↦ inl is
        | inr untouched ↦ inr (rw (sym untouched) same)
      ];
    }
