-- ===== src/State/History/Spent.antt =====
-- No nullifier is spent twice, over any sequence of transitions.
use lp_0002_private_multisig.Prelude.{
  ℕ, ◌≡◌, ◌≢◌, ap, sym, ◌∙◌, true, false, ◌||◌, some, List, [], ◌∷◌, Bytes, bytes_eq, bytes_eq_iff,
  contains, All, arith, ok, Bool-cases, Option-cases, inl, inr,
}
use lp_0002_private_multisig.Core.Commitments.{Nullifier, CommitmentSetDigest}
use lp_0002_private_multisig.State.Types.{V03State, StateDiff, Host}
use lp_0002_private_multisig.State.Apply.{
  insert_program, insert_set, extend_set, extend_commitments, apply_state_diff, increment_nonces,
  write_accounts,
}
use lp_0002_private_multisig.State.Private.{
  PrivacyHost, PrivacyPreservingTransaction, nullifiers, first_of,
  from_privacy_preserving_transaction,
}
use lp_0002_private_multisig.State.Private.Rules.{
  IsSpendable, from_privacy_preserving_transaction_iff,
}
use lp_0002_private_multisig.State.History.{History, start, transition}

pub contains-insert_set :
    (s : List Bytes) (b x : Bytes) → contains (insert_set s b) x ≡ (contains s x || bytes_eq b x)
unfolding insert_set contains
contains-insert_set s b x = ground (arith, bytes_eq_iff b x)

-- The set after an extension holds what it held, and the new elements.
contains-extend_set :
    (s bs : List Bytes) (x : Bytes) → contains (extend_set s bs) x ≡ (contains s x || contains bs x)
unfolding extend_set contains
contains-extend_set s [] x = ground arith
contains-extend_set s (b ∷ bs) x =
    ground (arith, contains-extend_set (insert_set s b) bs x, contains-insert_set s b x)

-- What an applied diff leaves in the two sets and in the programs.
pub apply_state_diff_inv :
    (sha256 : Bytes → Bytes) (s : V03State) (diff : StateDiff) {s' : V03State}
    → apply_state_diff sha256 s diff ≡ some s'
    → (s'.nullifier_set ≡ extend_set s.nullifier_set diff.new_nullifiers)
      × (extend_commitments sha256 s.commitment_set diff.new_commitments ≡ some s'.commitment_set)
      × (s'.programs ≡ insert_program diff.program s.programs)
unfolding apply_state_diff
apply_state_diff_inv sha256 s diff h =
    elim (Option-cases
      (increment_nonces diff.signer_account_ids (write_accounts diff.public_diff s.public_state))) [
        | inl overflow ↦ absurd (ground arith)
        | inr (accounts, e) ↦
            elim (Option-cases (extend_commitments sha256 s.commitment_set diff.new_commitments)) [
              | inl panic ↦ absurd (ground (arith, e, panic))
              | inr (set, e') ↦ ground (arith, e, e')
            ]
      ]

contains-first_of :
    (state : V03State) (ns : List (Nullifier × CommitmentSetDigest)) (n : Nullifier)
    → All (IsSpendable state) ns
    → contains (first_of ns) n ≡ true
    → contains state.nullifier_set n ≡ false
unfolding contains
contains-first_of state [] n h e = cc
contains-first_of state ((m, d) ∷ ns) n h e = elim (Bool-cases (bytes_eq m n)) [
  | inl same ↦ rw (sym ((bytes_eq_iff m n).0 same)) h.0.0
  | inr other ↦ contains-first_of state ns n h.1 (ground arith)
]

module _ (host : Host) (privacy : PrivacyHost) where
  -- A spent nullifier stays spent.
  History-contains :
      {s s' : V03State} (n : Nullifier)
      → History host privacy s s'
      → contains s.nullifier_set n ≡ true
      → contains s'.nullifier_set n ≡ true
  History-contains n start h = h
  History-contains n (transition {s' = s'} {diff = diff} before v applied) h =
      let (spent, _, _) = apply_state_diff_inv host.sha256 s' diff applied in
      let kept = History-contains n before h in
      ap (λ (l : List Bytes). contains l n) spent
      ∙ contains-extend_set s'.nullifier_set diff.new_nullifiers n
      ∙ ground (arith, kept)

  -- If a privacy preserving transaction is validated and its diff applied, then after any sequence of
  -- transitions no privacy preserving transaction that has one of its nullifiers is validated, in any
  -- block and at any time. In particular the transaction itself is not validated again.
  pub no_double_spend :
      (s : V03State) {s' : V03State} (s'' : V03State) {diff diff' : StateDiff}
      (block_id timestamp block_id' timestamp' : ℕ) (tx tx' : PrivacyPreservingTransaction)
      (n : Nullifier)
      → from_privacy_preserving_transaction privacy s block_id timestamp tx ≡ ok diff
      → apply_state_diff host.sha256 s diff ≡ some s'
      → History host privacy s' s''
      → contains (first_of (nullifiers tx.message.private_actions)) n ≡ true
      → contains (first_of (nullifiers tx'.message.private_actions)) n ≡ true
      → from_privacy_preserving_transaction privacy s'' block_id' timestamp' tx' ≢ ok diff'
  no_double_spend s {s'} s'' {diff} {diff'} block_id timestamp block_id' timestamp' tx tx' n first
        applied later mine theirs again =
      let (_, own) =
        (from_privacy_preserving_transaction_iff privacy s block_id timestamp tx diff).0 first in
      let (accepted, _) =
        (from_privacy_preserving_transaction_iff privacy s'' block_id' timestamp' tx' diff').0
          again in
      let (spent, _, _) = apply_state_diff_inv host.sha256 s diff applied in
      let recorded : contains s'.nullifier_set n ≡ true =
        ap (λ (l : List Bytes). contains l n) spent
        ∙ contains-extend_set s.nullifier_set diff.new_nullifiers n
        ∙ ground (arith, ap (λ (d : StateDiff). contains d.new_nullifiers n) own) in
      let free =
        contains-first_of s'' (nullifiers tx'.message.private_actions) n
          accepted.nullifiers_spendable theirs in
      cc (History-contains n later recorded, free)
