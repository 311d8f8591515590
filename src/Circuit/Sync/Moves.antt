-- ===== src/Circuit/Sync/Moves.antt =====
-- What one round of `validate_and_sync_states` (execution_state.rs) does to the balances.
use lp_0002_private_multisig.Prelude.{
  ℕ, ◌+◌, ◌≡◌, refl, ap, Option, none, some, List, [], ◌∷◌, ◌++◌, Bytes, Bool, true, false,
  if◌then◌else◌, length, ok, >>=-eq-ok, ensure, ok_or, get_elem?, bytes_eq, arith,
}
use lp_0002_private_multisig.Prelude.HashMap
use lp_0002_private_multisig.Core.Account.{
  ProgramId, Account, AccountWithMetadata, account_eq, account_eq_iff, default_program_id,
}
use lp_0002_private_multisig.Core.Balances.{sum}
use lp_0002_private_multisig.Core.Circuit.{InputAccountIdentity, is_public}
use lp_0002_private_multisig.Core.Program.{AccountPostState, Claim}
use lp_0002_private_multisig.Core.Validation.{pre_balances}
use lp_0002_private_multisig.State.Types.{lookup_account}
use lp_0002_private_multisig.State.Totals.{total_balance, total_balance-insert}
use lp_0002_private_multisig.Circuit.Types.{ExecutionState}
use lp_0002_private_multisig.Circuit.Bindings.{resolve_authorization_and_record_bindings}
use lp_0002_private_multisig.Circuit.Sync.{
  bind_external, first_seen, seen_again, check_public_claim, check_private_claim, sync_claim,
  sync_one, find_pre, external_seed,
}
use lp_0002_private_multisig.Circuit.Sync.Unmoved.{
  SameAccounts, bind_external-SameAccounts, resolve-SameAccounts, check_public_claim-SameAccounts,
  check_private_claim-SameAccounts,
}

module _ (sha256 : Bytes → Bytes) where
  -- The totals of two states of the execution, between which `spent` became `kept`.
  abbrev pub Moves : ExecutionState → ℕ → ℕ → ExecutionState → Type 0
  Moves s spent kept s' =
      total_balance s'.post_states + spent + sum (pre_balances s.pre_states)
      ≡ total_balance s.post_states + kept + sum (pre_balances s'.pre_states)

  sum-pre_balances-append :
      (pres : List AccountWithMetadata) (pre : AccountWithMetadata)
      → sum (pre_balances (pres ++ pre ∷ [])) ≡ sum (pre_balances pres) + pre.account.balance
  sum-pre_balances-append [] pre = omega arith
  sum-pre_balances-append (p ∷ pres) pre = omega (arith, sum-pre_balances-append pres pre)

  check_claim-SameAccounts :
      (is_public_account : Bool) (program_id : ProgramId) (position : ℕ) (s : ExecutionState)
      (pre : AccountWithMetadata) (claim : Claim) {s' : ExecutionState}
      → (if is_public_account
          then check_public_claim sha256 program_id s pre claim
          else check_private_claim sha256 program_id position s pre claim)
        ≡ ok s'
      → SameAccounts s s'
  check_claim-SameAccounts true program_id position s pre claim h =
      check_public_claim-SameAccounts sha256 program_id s pre claim h
  check_claim-SameAccounts false program_id position s pre claim h =
      check_private_claim-SameAccounts sha256 program_id position s pre claim h

  sync_claim_lem :
      (identities : List InputAccountIdentity) (program_id : ProgramId) (s : ExecutionState)
      (pre : AccountWithMetadata) (post : Account) (claim : Option Claim)
      {synced : Account × ExecutionState}
      → sync_claim sha256 identities program_id s pre post claim ≡ ok synced
      → (synced.0.balance ≡ post.balance) × SameAccounts s synced.1
  unfolding sync_claim
  sync_claim_lem identities program_id s pre post none h = ground arith
  sync_claim_lem identities program_id s pre post (some claim) h =
      let (unit, e0, h0) =
        >>=-eq-ok (ensure (bytes_eq post.program_owner default_program_id) _) _ h in
      let ((position, flag), e1, h1) =
        >>=-eq-ok (ok_or (find_pre 0 s.pre_states pre.account_id) _) _ h0 in
      let (identity, e2, h2) = >>=-eq-ok (ok_or (get_elem? identities position) _) _ h1 in
      let (checked, e3, h3) =
        >>=-eq-ok
          (if is_public identity
            then check_public_claim sha256 program_id s pre claim
            else check_private_claim sha256 program_id position s pre claim)
          _ h2 in
      let same = check_claim-SameAccounts (is_public identity) program_id position s pre claim e3 in
      ground (arith, h3, same)

  first_seen_lem :
      (identities : List InputAccountIdentity) (s : ExecutionState) (pre : AccountWithMetadata)
      {s' : ExecutionState}
      → first_seen sha256 identities s pre ≡ ok s'
      → (s'.pre_states ≡ s.pre_states ++ pre ∷ []) × (s'.post_states ≡ s.post_states)
  unfolding first_seen
  first_seen_lem identities s pre h =
      let (external, e0, h0) =
        >>=-eq-ok (external_seed sha256 (get_elem? identities (length s.pre_states)) pre.account_id)
          _ h in
      let (bound, e1, h1) = >>=-eq-ok (bind_external sha256 s pre external) _ h0 in
      let same = bind_external-SameAccounts sha256 s pre external e1 in ground (arith, h1, same)

  seen_again_lem :
      (caller : Option ProgramId) (seeds : List Bytes) (s : ExecutionState)
      (pre : AccountWithMetadata) (known : Account) {s' : ExecutionState}
      → seen_again sha256 caller seeds s pre known ≡ ok s'
      → (known ≡ pre.account) × SameAccounts s s'
  unfolding seen_again
  seen_again_lem caller seeds s pre known h =
      let (unit, e0, h0) = >>=-eq-ok (ensure (account_eq known pre.account) _) _ h in
      let ((position, previous), e1, h1) =
        >>=-eq-ok (ok_or (find_pre 0 s.pre_states pre.account_id) _) _ h0 in
      let ((authorized, resolved), e2, h2) =
        >>=-eq-ok
          (resolve_authorization_and_record_bindings sha256 s pre.account_id position caller seeds
            previous)
          _ h1 in
      let same = resolve-SameAccounts sha256 s pre.account_id position caller seeds previous e2 in
      ground (arith, e0, h2, same, account_eq_iff known pre.account)

  -- Entering an account that is not known adds its balance to the initial ones.
  entered-Moves :
      (identities : List InputAccountIdentity) (caller : Option ProgramId) (seeds : List Bytes)
      (s : ExecutionState) (pre : AccountWithMetadata) (found : Option Account)
      {s' : ExecutionState}
      → elim found [
        | none ↦ first_seen sha256 identities s pre
        | some known ↦ seen_again sha256 caller seeds s pre known
      ]
        ≡ ok s'
      → HashMap.get s.post_states pre.account_id ≡ found
      → (s'.post_states ≡ s.post_states)
        × ((lookup_account s.post_states pre.account_id).balance + sum (pre_balances s'.pre_states)
            ≡ pre.account.balance + sum (pre_balances s.pre_states))
  unfolding lookup_account
  entered-Moves identities caller seeds s pre none h e =
      let (pres, posts) = first_seen_lem identities s pre h in
      (posts, rw (e, pres) (omega (arith, sum-pre_balances-append s.pre_states pre)))
  entered-Moves identities caller seeds s pre (some known) h e =
      let (same, (pres, posts)) = seen_again_lem caller seeds s pre known h in
      (posts, rw (e, pres) (omega (arith, ap (λ (a : Account). a.balance) same)))

  pub sync_one-Moves :
      (identities : List InputAccountIdentity) (program_id : ProgramId) (caller : Option ProgramId)
      (seeds : List Bytes) (s : ExecutionState) (pre : AccountWithMetadata)
      (post : AccountPostState) {s' : ExecutionState}
      → sync_one sha256 identities program_id caller seeds s pre post ≡ ok s'
      → Moves s pre.account.balance post.account.balance s'
  unfolding sync_one
  sync_one-Moves identities program_id caller seeds s pre post {s'} h =
      let found = HashMap.get s.post_states pre.account_id in
      let (entered, e0, h0) =
        >>=-eq-ok
          (elim found [
            | none ↦ first_seen sha256 identities s pre
            | some known ↦ seen_again sha256 caller seeds s pre known
          ])
          _ h in
      let ((account, claimed), e1, h1) =
        >>=-eq-ok (sync_claim sha256 identities program_id entered pre post.account post.claim) _
          h0 in
      let (same_posts, balance) = entered-Moves identities caller seeds s pre found e0 refl in
      let (kept, (pres, posts)) =
        sync_claim_lem identities program_id entered pre post.account post.claim e1 in
      let written = total_balance-insert s.post_states pre.account_id account in
      let last : SameAccounts
          (record claimed {
            post_states = HashMap.insert claimed.post_states pre.account_id account;
          })
          s' =
        ground (arith, h1) in
      rw (last.0, last.1, pres, posts, same_posts) (omega (arith, written, balance, kept))
