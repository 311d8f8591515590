-- ===== src/Chain/Transactions/Effects.antt =====
-- What a diff does to one account, and what the guards see of it.
use lp_0002_private_multisig.Prelude.{
  ◌+◌, ◌≡◌, sym, Bytes, some, List, [], ◌∷◌, bytes_eq_iff, IsDistinct, Option-cases, All, ok,
  >>=-eq-ok, inl, inr, arith,
}
use lp_0002_private_multisig.Prelude.HashMap
use lp_0002_private_multisig.Prelude.HashMap.{HashMap}
use lp_0002_private_multisig.Core.Account.{AccountId, Account, account_eq_iff}
use lp_0002_private_multisig.State.Types.{V03State, StateDiff, get_account_by_id, lookup_account}
use lp_0002_private_multisig.State.Apply.{write_accounts, increment_nonces, apply_state_diff}
use lp_0002_private_multisig.State.Totals.{keys, lookup_account-insert, increment_step}
use lp_0002_private_multisig.State.Checks.{expected_pre}
use lp_0002_private_multisig.State.Private.{PublicActionWithId, collect_actions}
use lp_0002_private_multisig.State.Public.Diff.{keys-insert-IsDistinct}
use lp_0002_private_multisig.State.Public.Replay.{lookup_account-write_accounts}
use lp_0002_private_multisig.Chain.Transactions.{
  validate_doesnt_modify_account, validate_restricted,
}

-- Two accounts that differ at most in the nonce.
pub record SameButNonce (a b : Account) : Type 0 where
  pub same_owner : a.program_owner ≡ b.program_owner
  pub same_balance : a.balance ≡ b.balance
  pub same_data : a.data_bytes ≡ b.data_bytes

-- The nonces are all that the loop over the signers changes.
increment_nonces-SameButNonce :
    (ids : List AccountId) (m : HashMap Account) (j : AccountId) {m' : HashMap Account}
    → increment_nonces ids m ≡ some m'
    → SameButNonce (lookup_account m j) (lookup_account m' j)
unfolding increment_nonces
increment_nonces-SameButNonce [] m j h = record {
  same_owner = ground (arith, h);
  same_balance = ground (arith, h);
  same_data = ground (arith, h);
}
increment_nonces-SameButNonce (id ∷ ids) m j {m'} h =
    let a = record (lookup_account m id) { nonce = (lookup_account m id).nonce + 1 } in
    let rest =
      increment_nonces-SameButNonce ids (HashMap.insert m id a) j {m' = m'}
        (increment_step id ids m h) in
    let read = lookup_account-insert m id j a in
    record {
      same_owner = ground (arith, rest.same_owner, read, bytes_eq_iff id j);
      same_balance = ground (arith, rest.same_balance, read, bytes_eq_iff id j);
      same_data = ground (arith, rest.same_data, read, bytes_eq_iff id j);
    }

pub collect_actions-IsDistinct :
    (m : HashMap Account) (actions : List PublicActionWithId)
    → IsDistinct (keys m)
    → IsDistinct (keys (collect_actions m actions))
unfolding collect_actions
collect_actions-IsDistinct m [] h = h
collect_actions-IsDistinct m (action ∷ actions) h =
    collect_actions-IsDistinct (HashMap.insert m action.account_id action.post_state) actions
      (keys-insert-IsDistinct m action.account_id action.post_state h)

-- What an account is after a diff: what the diff has for it, but for the nonce.
pub apply_state_diff-SameButNonce :
    (sha256 : Bytes → Bytes) (state : V03State) (diff : StateDiff) (id : AccountId)
    {after : V03State}
    → IsDistinct (keys diff.public_diff)
    → apply_state_diff sha256 state diff ≡ some after
    → SameButNonce
        (expected_pre state.public_state diff.public_diff id)
        (get_account_by_id after id)
unfolding apply_state_diff
apply_state_diff-SameButNonce sha256 state diff id {after} distinct h =
    let written = write_accounts diff.public_diff state.public_state in
    elim (Option-cases (increment_nonces diff.signer_account_ids written)) [
      | inl fails ↦ absurd (ground (arith, h, fails))
      | inr (accounts, e) ↦
          let same : after.public_state ≡ accounts = ground (arith, h, e) in
          rw
            (
              sym (lookup_account-write_accounts diff.public_diff state.public_state id distinct),
              same,
            )
            (increment_nonces-SameButNonce diff.signer_account_ids written id e)
    ]

validate_doesnt_modify_account_lem :
    (state : V03State) (diff : StateDiff) (id : AccountId)
    → validate_doesnt_modify_account state diff id ≡ ok tt
    → expected_pre state.public_state diff.public_diff id ≡ get_account_by_id state id
unfolding validate_doesnt_modify_account
validate_doesnt_modify_account_lem state diff id h =
    elim (Option-cases (HashMap.get diff.public_diff id)) [
      | inl untouched ↦ ground (arith, untouched)
      | inr (post, e) ↦
          let same = (account_eq_iff post (get_account_by_id state id)).0 (ground (arith, h, e)) in
          ground (arith, e, same)
    ]

pub validate_restricted_lem :
    (state : V03State) (diff : StateDiff) (ids : List AccountId)
    → validate_restricted state diff ids ≡ ok tt
    → All
        (λ id. expected_pre state.public_state diff.public_diff id ≡ get_account_by_id state id)
        ids
unfolding validate_restricted
validate_restricted_lem state diff [] h = tt
validate_restricted_lem state diff (id ∷ ids) h =
    let (unit, e, h1) = >>=-eq-ok (validate_doesnt_modify_account state diff id) _ h in
    (validate_doesnt_modify_account_lem state diff id e, validate_restricted_lem state diff ids h1)
