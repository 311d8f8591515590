-- ===== src/Circuit/Sync/Unmoved.antt =====
-- Bindings, authorizations and claims leave the accounts of the execution alone (execution_state.rs).
use lp_0002_private_multisig.Prelude.{
  ℕ, ◌≡◌, Option, none, some, List, Bytes, Bool, ok, ensure-eq-ok, Result-cases, inl, inr, arith,
}
use lp_0002_private_multisig.Core.Account.{ProgramId, AccountId, AccountWithMetadata}
use lp_0002_private_multisig.Core.Program.{Claim}
use lp_0002_private_multisig.Circuit.Types.{Binding, get_position, ExecutionState}
use lp_0002_private_multisig.Circuit.Bindings.{
  MatchedSeed, matched_caller_seed, bind_both, record_match,
  resolve_authorization_and_record_bindings,
}
use lp_0002_private_multisig.Circuit.Sync.{bind_external, check_public_claim, check_private_claim}

-- Bindings and authorizations leave the accounts alone.
abbrev pub SameAccounts : ExecutionState → ExecutionState → Type 0
SameAccounts s s' = (s'.pre_states ≡ s.pre_states) × (s'.post_states ≡ s.post_states)

pub bind_both-SameAccounts :
    (s : ExecutionState) (position : ℕ) (b : Binding) (account_id : AccountId) {s' : ExecutionState}
    → bind_both s position b account_id ≡ ok s'
    → SameAccounts s s'
unfolding bind_both
bind_both-SameAccounts s position b account_id h = ground arith

pub bind_external-SameAccounts :
    (sha256 : Bytes → Bytes) (s : ExecutionState) (pre : AccountWithMetadata)
    (external : Option Binding) {s' : ExecutionState}
    → bind_external sha256 s pre external ≡ ok s'
    → SameAccounts s s'
unfolding bind_external
bind_external-SameAccounts sha256 s pre none h = ground arith
bind_external-SameAccounts sha256 s pre (some b) h =
    bind_both-SameAccounts s _ b pre.account_id (ensure-eq-ok _ _ _ h).1

module _ (sha256 : Bytes → Bytes) where
  pub record_match-SameAccounts :
      (s : ExecutionState) (position : ℕ) (account_id : AccountId) (matched : MatchedSeed sha256)
      {s' : ExecutionState}
      → record_match sha256 s position account_id matched ≡ ok s'
      → SameAccounts s s'
  unfolding record_match
  record_match-SameAccounts s position account_id none h = ground arith
  record_match-SameAccounts s position account_id (some (caller, (seed, form))) h = ground arith

  pub resolve-SameAccounts :
      (s : ExecutionState) (account_id : AccountId) (position : ℕ) (caller : Option ProgramId)
      (seeds : List Bytes) (previous : Bool) {answer : Bool × ExecutionState}
      → resolve_authorization_and_record_bindings sha256 s account_id position caller seeds previous
        ≡ ok answer
      → SameAccounts s answer.1
  unfolding resolve_authorization_and_record_bindings
  resolve-SameAccounts s account_id position caller seeds previous h =
      let keys = get_position s.private_pda_by_position position in
      let matched = matched_caller_seed sha256 keys caller account_id seeds in
      elim (Result-cases (record_match sha256 s position account_id matched)) [
        | inl (recorded, e) ↦
            let same = record_match-SameAccounts s position account_id matched e in
            ground (arith, same, e)
        | inr (panic, e) ↦ absurd (ground (arith, e))
      ]

  pub check_public_claim-SameAccounts :
      (program_id : ProgramId) (s : ExecutionState) (pre : AccountWithMetadata) (claim : Claim)
      {s' : ExecutionState}
      → check_public_claim sha256 program_id s pre claim ≡ ok s'
      → SameAccounts s s'
  unfolding check_public_claim
  check_public_claim-SameAccounts program_id s pre Claim.authorized h = ground arith
  check_public_claim-SameAccounts program_id s pre (Claim.pda seed) h = ground arith

  pub check_private_claim-SameAccounts :
      (program_id : ProgramId) (position : ℕ) (s : ExecutionState) (pre : AccountWithMetadata)
      (claim : Claim) {s' : ExecutionState}
      → check_private_claim sha256 program_id position s pre claim ≡ ok s'
      → SameAccounts s s'
  unfolding check_private_claim bind_both
  check_private_claim-SameAccounts program_id position s pre Claim.authorized h = ground arith
  check_private_claim-SameAccounts program_id position s pre (Claim.pda seed) h = ground arith
