-- ===== src/State/Public/Diff.antt =====
-- The diff while calls are processed: what one insertion, and what one output, changes.
use lp_0002_private_multisig.Prelude.{
  ◌+◌, ◌≡◌, refl, ap, false, List, [], ◌∷◌, bytes_eq, bytes_eq_iff, contains, IsDistinct,
  if◌then◌else◌, arith,
}
use lp_0002_private_multisig.Prelude.HashMap
use lp_0002_private_multisig.Prelude.HashMap.{HashMap, get-insert}
use lp_0002_private_multisig.Core.Account.{AccountId, Account, AccountWithMetadata}
use lp_0002_private_multisig.Core.Program.{AccountPostState}
use lp_0002_private_multisig.Core.Balances.{sum}
use lp_0002_private_multisig.Core.Validation.{account_ids, pre_balances, post_balances}
use lp_0002_private_multisig.State.Types.{lookup_account}
use lp_0002_private_multisig.State.Checks.{expected_pre, update_diff}
use lp_0002_private_multisig.State.Totals.{total_balance, keys, replaced}

-- As many posts as pres, and each pair has one nonce.
abbrev pub SameNonces : List AccountWithMetadata → List AccountPostState → Type 0
SameNonces (pre ∷ pres) (post ∷ posts) =
    (pre.account.nonce ≡ post.account.nonce) × SameNonces pres posts
SameNonces [] [] = Unit
SameNonces _ _ = ⊥

module _ (accounts : HashMap Account) where
  pub expected_pre-insert :
      (diff : HashMap Account) (k j : AccountId) (v : Account)
      → expected_pre accounts (HashMap.insert diff k v) j
        ≡ (if bytes_eq k j then v else expected_pre accounts diff j)
  expected_pre-insert diff k j v = ground (arith, get-insert diff k j v)

  -- The entry for `k` is new or replaces another; in both cases the books balance.
  total_balance-diff_insert :
      (diff : HashMap Account) (k : AccountId) (v : Account)
      → total_balance (HashMap.insert diff k v)
          + (expected_pre accounts diff k).balance
          + replaced accounts diff
        ≡ total_balance diff + v.balance + replaced accounts (HashMap.insert diff k v)
  unfolding total_balance replaced HashMap.insert HashMap.get
  total_balance-diff_insert [] k v = omega arith
  total_balance-diff_insert ((j, w) ∷ diff) k v =
      ground (arith, total_balance-diff_insert diff k v, bytes_eq_iff j k)

  -- An output's pre states agree with the diff, or with the state where the diff has no entry.
  abbrev pub AgreesWith : HashMap Account → List AccountWithMetadata → Type 0
  AgreesWith diff [] = Unit
  AgreesWith diff (pre ∷ pres) =
      (pre.account ≡ expected_pre accounts diff pre.account_id) × AgreesWith diff pres

  AgreesWith-insert :
      (diff : HashMap Account) (k : AccountId) (v : Account) (pres : List AccountWithMetadata)
      → contains (account_ids pres) k ≡ false
      → AgreesWith diff pres
      → AgreesWith (HashMap.insert diff k v) pres
  unfolding contains
  AgreesWith-insert diff k v [] new h = tt
  AgreesWith-insert diff k v (pre ∷ pres) new h = (
    ground (
      arith,
      expected_pre-insert diff k pre.account_id v,
      bytes_eq_iff k pre.account_id,
      bytes_eq_iff pre.account_id k,
      h.0,
    ),
    AgreesWith-insert diff k v pres (ground arith) h.1,
  )

  -- The balances that one output moves are those by which the diff's total moves.
  pub total_balance-update_diff :
      (diff : HashMap Account) (pres : List AccountWithMetadata) (posts : List AccountPostState)
      → IsDistinct (account_ids pres)
      → AgreesWith diff pres
      → SameNonces pres posts
      → total_balance (update_diff diff pres posts)
          + sum (pre_balances pres)
          + replaced accounts diff
        ≡ total_balance diff
          + sum (post_balances posts)
          + replaced accounts (update_diff diff pres posts)
  unfolding update_diff
  total_balance-update_diff diff [] [] d a r = omega arith
  total_balance-update_diff diff [] (post ∷ posts) d a r = absurd r
  total_balance-update_diff diff (pre ∷ pres) [] d a r = absurd r
  total_balance-update_diff diff (pre ∷ pres) (post ∷ posts) d a r =
      let next = HashMap.insert diff pre.account_id post.account in
      omega (
        arith,
        total_balance-diff_insert diff pre.account_id post.account,
        ap (λ (t : Account). t.balance) a.0,
        total_balance-update_diff next pres posts d.1
            (AgreesWith-insert diff pre.account_id post.account pres d.0 a.1) r.1,
      )

  -- No account's nonce differs from the state's.
  abbrev pub KeepsNonces : HashMap Account → Type 0
  KeepsNonces diff =
      (k : AccountId) → (expected_pre accounts diff k).nonce ≡ (lookup_account accounts k).nonce

  pub KeepsNonces-update_diff :
      (diff : HashMap Account) (pres : List AccountWithMetadata) (posts : List AccountPostState)
      → IsDistinct (account_ids pres)
      → AgreesWith diff pres
      → SameNonces pres posts
      → KeepsNonces diff
      → KeepsNonces (update_diff diff pres posts)
  unfolding update_diff
  KeepsNonces-update_diff diff [] [] d a r n = n
  KeepsNonces-update_diff diff [] (post ∷ posts) d a r n = absurd r
  KeepsNonces-update_diff diff (pre ∷ pres) [] d a r n = absurd r
  KeepsNonces-update_diff diff (pre ∷ pres) (post ∷ posts) d a r n =
      let next = HashMap.insert diff pre.account_id post.account in
      KeepsNonces-update_diff next pres posts d.1
        (AgreesWith-insert diff pre.account_id post.account pres d.0 a.1) r.1
        (λ k. ground (
          arith,
          expected_pre-insert diff pre.account_id k post.account,
          bytes_eq_iff pre.account_id k,
          n k,
          r.0,
          a.0,
        ))

contains-keys-insert :
    (diff : HashMap Account) (k j : AccountId) (v : Account)
    → bytes_eq k j ≡ false
    → contains (keys diff) j ≡ false
    → contains (keys (HashMap.insert diff k v)) j ≡ false
unfolding contains HashMap.insert
contains-keys-insert [] k j v ne h = ground arith
contains-keys-insert ((i, w) ∷ diff) k j v ne h = ground (arith, contains-keys-insert diff k j v ne)

-- Insertion keeps the keys distinct.
pub keys-insert-IsDistinct :
    (diff : HashMap Account) (k : AccountId) (v : Account)
    → IsDistinct (keys diff)
    → IsDistinct (keys (HashMap.insert diff k v))
unfolding contains HashMap.insert
keys-insert-IsDistinct [] k v h = (refl, tt)
keys-insert-IsDistinct ((j, w) ∷ diff) k v h = ground (
  arith,
  keys-insert-IsDistinct diff k v h.1,
  contains-keys-insert diff k j v,
  bytes_eq_iff j k,
  bytes_eq_iff k j,
)

pub keys-update_diff-IsDistinct :
    (diff : HashMap Account) (pres : List AccountWithMetadata) (posts : List AccountPostState)
    → IsDistinct (keys diff)
    → IsDistinct (keys (update_diff diff pres posts))
unfolding update_diff
keys-update_diff-IsDistinct diff [] posts h = h
keys-update_diff-IsDistinct diff (pre ∷ pres) [] h = h
keys-update_diff-IsDistinct diff (pre ∷ pres) (post ∷ posts) h =
    keys-update_diff-IsDistinct (HashMap.insert diff pre.account_id post.account) pres posts
      (keys-insert-IsDistinct diff pre.account_id post.account h)
