-- ===== src/Core/Validation/Rules.antt =====
-- The rules as a predicate: `validate_execution` accepts exactly the outputs that keep them.
use lp_0002_private_multisig.Prelude.{
  suc, ◌<◌, ◌≤◌, ◌≡◌, ◌≢◌, refl, ap, sym, ◌∙◌, ◌↔◌, ◌⊎◌, List, [], ◌∷◌, bytes_eq_iff, n_unique_iff,
  IsDistinct, length, All, arith, ok, >>=-eq-ok, ensure-eq-ok, true, ==_iff,
}
use lp_0002_private_multisig.Core.Account.{
  ProgramId, AccountWithMetadata, default_account, default_program_id, account_eq_iff, u128_mod,
}
use lp_0002_private_multisig.Core.Program.{AccountPostState}
use lp_0002_private_multisig.Core.Balances.{
  WrappedBalanceSum, wrapped_eq, sum, IsU128, value, from_balances-eq-sum, value_inj,
}
use lp_0002_private_multisig.Core.Validation.{
  account_ids, pre_balances, post_balances, validate_uniqueness_of_account_ids, validate_account,
  validate_accounts, validate_total_balance, validate_execution,
}

-- What an execution by `executing` may do to one account.
pub record AccountRule (pre : AccountWithMetadata) (post : AccountPostState) (executing : ProgramId)
    : Type 0 where
  pub same_nonce : pre.account.nonce ≡ post.account.nonce
  pub same_owner : pre.account.program_owner ≡ post.account.program_owner
  pub only_owner_debits :
      (pre.account.balance ≤ post.account.balance) ⊎ (pre.account.program_owner ≡ executing)
  pub only_owner_writes :
      (pre.account.data_bytes ≡ post.account.data_bytes)
      ⊎ (pre.account ≡ default_account)
      ⊎ (pre.account.program_owner ≡ executing)
  pub default_owner :
      (post.account.program_owner ≢ default_program_id) ⊎ (pre.account ≡ default_account)

pub validate_account_iff :
    (pre : AccountWithMetadata) (post : AccountPostState) (executing : ProgramId)
    → (validate_account pre post executing ≡ ok tt) ↔ AccountRule pre post executing
unfolding validate_account
validate_account_iff pre post executing = (
  λ h. ground (
    arith,
    bytes_eq_iff pre.account.program_owner post.account.program_owner,
    bytes_eq_iff pre.account.program_owner executing,
    bytes_eq_iff pre.account.data_bytes post.account.data_bytes,
    account_eq_iff pre.account default_account,
    bytes_eq_iff post.account.program_owner default_program_id,
  ),
  λ h. ground (
    arith,
    bytes_eq_iff pre.account.program_owner post.account.program_owner,
    bytes_eq_iff pre.account.program_owner executing,
    bytes_eq_iff pre.account.data_bytes post.account.data_bytes,
    account_eq_iff pre.account default_account,
    bytes_eq_iff post.account.program_owner default_program_id,
  ),
)

abbrev pub AccountRules : List AccountWithMetadata → List AccountPostState → ProgramId → Type 0
AccountRules (pre ∷ pres) (post ∷ posts) executing =
    AccountRule pre post executing × AccountRules pres posts executing
AccountRules [] [] executing = Unit
AccountRules _ _ executing = ⊥

-- One rule for each pair of accounts, and as many accounts after as before.
abbrev pub PairRules : List AccountWithMetadata → List AccountPostState → ProgramId → Type 0
PairRules pres posts executing =
    (length pres ≡ length posts) × (validate_accounts pres posts executing ≡ ok tt)

pub validate_accounts_iff :
    (pres : List AccountWithMetadata) (posts : List AccountPostState) (executing : ProgramId)
    → PairRules pres posts executing ↔ AccountRules pres posts executing
unfolding validate_accounts
validate_accounts_iff [] [] executing = (λ _. tt, λ _. (refl, refl))
validate_accounts_iff [] (post ∷ posts) executing = (λ h. cc h.0, λ h. absurd h)
validate_accounts_iff (pre ∷ pres) [] executing = (λ h. cc h.0, λ h. absurd h)
validate_accounts_iff (pre ∷ pres) (post ∷ posts) executing = (
  λ h.
      let (u, first, rest) =
        >>=-eq-ok (validate_account pre post executing)
          (λ _. validate_accounts pres posts executing) h.1 in
      (
        (validate_account_iff pre post executing).0 first,
        (validate_accounts_iff pres posts executing).0 (omega (arith, h.0), rest),
      ),
  λ h.
      let (len, rest) = (validate_accounts_iff pres posts executing).1 h.1 in
      (ap suc len, ground (arith, (validate_account_iff pre post executing).1 h.0, rest)),
)

length-account_ids : (pres : List AccountWithMetadata) → length (account_ids pres) ≡ length pres
length-account_ids [] = refl
length-account_ids (a ∷ pres) = ap suc (length-account_ids pres)

length-pre_balances : (pres : List AccountWithMetadata) → length (pre_balances pres) ≡ length pres
length-pre_balances [] = refl
length-pre_balances (a ∷ pres) = ap suc (length-pre_balances pres)

length-post_balances : (posts : List AccountPostState) → length (post_balances posts) ≡ length posts
length-post_balances [] = refl
length-post_balances (a ∷ posts) = ap suc (length-post_balances posts)

-- Balances are u128 values, and there are fewer than 2^128 of them.
pub record AreBalances (pres : List AccountWithMetadata) (posts : List AccountPostState)
    : Type 0 where
  pub pre_u128 : All IsU128 (pre_balances pres)
  pub post_u128 : All IsU128 (post_balances posts)
  pub pre_count : length pres < u128_mod
  pub post_count : length posts < u128_mod

wrapped_eq_iff : (v w : WrappedBalanceSum) → (wrapped_eq v w ≡ true) ↔ (v ≡ w)
wrapped_eq_iff v w = ground arith

pub validate_total_balance_iff :
    (pres : List AccountWithMetadata) (posts : List AccountPostState)
    → AreBalances pres posts
    → (validate_total_balance pres posts ≡ ok tt)
      ↔ (sum (pre_balances pres) ≡ sum (post_balances posts))
unfolding validate_total_balance
validate_total_balance_iff pres posts b =
    let (v, ev, v_lo, v_sum) =
      from_balances-eq-sum (pre_balances pres) b.pre_u128
        (omega (arith, b.pre_count, length-pre_balances pres)) in
    let (w, ew, w_lo, w_sum) =
      from_balances-eq-sum (post_balances posts) b.post_u128
        (omega (arith, b.post_count, length-post_balances posts)) in
    (
      λ h.
          let same : v ≡ w = (wrapped_eq_iff v w).0 (ground (arith, ev, ew, h)) in
          sym v_sum ∙ ap value same ∙ w_sum,
      λ h.
          let same = (wrapped_eq_iff v w).1 (value_inj v w v_lo w_lo (v_sum ∙ h ∙ sym w_sum)) in
          ground (arith, ev, ew, same),
    )

-- What the state machine may rely on after a program has run.
pub record IsWellBehaved (pres : List AccountWithMetadata) (posts : List AccountPostState)
    (executing : ProgramId) : Type 0 where
  pub distinct : IsDistinct (account_ids pres)
  pub rules : AccountRules pres posts executing
  pub conserved : sum (pre_balances pres) ≡ sum (post_balances posts)

unique_iff :
    (pres : List AccountWithMetadata)
    → (validate_uniqueness_of_account_ids pres ≡ true) ↔ IsDistinct (account_ids pres)
unfolding validate_uniqueness_of_account_ids
unique_iff pres = (
  λ h. (n_unique_iff (account_ids pres)).0 (ground (arith, length-account_ids pres)),
  λ h. ground (arith, length-account_ids pres, (n_unique_iff (account_ids pres)).1 h),
)

-- For u128 balances, `validate_execution` accepts exactly the outputs with distinct account ids, in
-- which every account keeps its rule and the sum of the balances is the same before and after.
pub validate_execution_iff :
    (pres : List AccountWithMetadata) (posts : List AccountPostState) (executing : ProgramId)
    → AreBalances pres posts
    → (validate_execution pres posts executing ≡ ok tt) ↔ IsWellBehaved pres posts executing
unfolding validate_execution
validate_execution_iff pres posts executing b = (
  λ h.
      let (unique, h1) = ensure-eq-ok _ _ _ h in
      let (len, h2) = ensure-eq-ok _ _ _ h1 in
      let (u, accounts, total) = >>=-eq-ok (validate_accounts pres posts executing) _ h2 in
      record {
        distinct = (unique_iff pres).0 unique;
        rules =
            (validate_accounts_iff pres posts executing).0
              ((==_iff (length pres) (length posts)).0 len, accounts);
        conserved = (validate_total_balance_iff pres posts b).0 total;
      },
  λ h.
      let (len, accounts) = (validate_accounts_iff pres posts executing).1 h.rules in
      ground (
        arith,
        (unique_iff pres).1 h.distinct,
        len,
        accounts,
        (validate_total_balance_iff pres posts b).1 h.conserved,
      ),
)
