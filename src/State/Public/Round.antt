-- ===== src/State/Public/Round.antt =====
-- One call of the loop: what its checks give, and what it keeps of the diff.
use mathlib.Core.Path.{subst}
use lp_0002_private_multisig.Prelude.{
  ℕ, ◌≡◌, refl, ap, sym, ◌∙◌, Option, none, some, List, [], ◌∷◌, Bytes, IsDistinct, arith, Result,
  ok, >>=-eq-ok, ok_or, Result-cases, inl, inr,
}
use lp_0002_private_multisig.Prelude.HashMap
use lp_0002_private_multisig.Prelude.HashMap.{HashMap}
use lp_0002_private_multisig.Core.Account.{
  ProgramId, AccountId, Account, AccountWithMetadata, account_eq_iff,
}
use lp_0002_private_multisig.Core.Program.{
  InstructionData, ChainedCall, Claim, AccountPostState, ProgramOutput,
  compute_public_authorized_pdas,
}
use lp_0002_private_multisig.Core.Balances.{sum}
use lp_0002_private_multisig.Core.Validation.{post_balances, validate_execution}
use lp_0002_private_multisig.Core.Validation.Rules.{
  AccountRules, AreBalances, validate_execution_iff,
}
use lp_0002_private_multisig.State.Types.{LeeError, Program, V03State, Host}
use lp_0002_private_multisig.State.Public.{check_output, process_call}
use lp_0002_private_multisig.State.Checks.{
  CallerData, Call, expected_pre, check_pre_states, apply_claim, apply_claims, update_diff,
}
use lp_0002_private_multisig.State.Totals.{total_balance, keys, replaced}
use lp_0002_private_multisig.State.Public.Diff.{
  SameNonces, AgreesWith, KeepsNonces, total_balance-update_diff, KeepsNonces-update_diff,
  keys-update_diff-IsDistinct,
}

-- A journal is decoded into u128 balances, and has fewer than 2^128 accounts.
pub record DecodesBalances (host : Host) : Type 0 where
  pub decoded :
      (program : Program) (caller : Option ProgramId) (pres : List AccountWithMetadata)
      (words : InstructionData) {output : ProgramOutput}
      → host.execute program caller pres words ≡ ok output
      → AreBalances output.pre_states output.post_states

SameNonces-rules :
    (pres : List AccountWithMetadata) (posts : List AccountPostState) (executing : ProgramId)
    → AccountRules pres posts executing
    → SameNonces pres posts
SameNonces-rules [] [] executing r = tt
SameNonces-rules [] (post ∷ posts) executing r = r
SameNonces-rules (pre ∷ pres) [] executing r = r
SameNonces-rules (pre ∷ pres) (post ∷ posts) executing r =
    (r.0.same_nonce, SameNonces-rules pres posts executing r.1)

-- A claim changes the owner only.
apply_claim_lem :
    (sha256 : Bytes → Bytes) (executing : ProgramId) (pre : AccountWithMetadata)
    (post : AccountPostState) (claim : Option Claim) {claimed : AccountPostState}
    → apply_claim sha256 executing pre post claim ≡ ok claimed
    → (claimed.account.balance ≡ post.account.balance)
      × (claimed.account.nonce ≡ post.account.nonce)
unfolding apply_claim
apply_claim_lem sha256 executing pre post none h = ground arith
apply_claim_lem sha256 executing pre post (some claim) h = ground arith

-- What the claims keep of the posts.
abbrev Kept : List AccountWithMetadata → List AccountPostState → List AccountPostState → Type 0
Kept pres posts claimed =
    SameNonces pres claimed × (sum (post_balances claimed) ≡ sum (post_balances posts))

pub ok-inj : {A : Type 0} {a b : A} → ◌≡◌ {A = Result LeeError A} (ok a) (ok b) → a ≡ b
ok-inj h = cc

apply_claims_lem :
    (sha256 : Bytes → Bytes) (executing : ProgramId) (pres : List AccountWithMetadata)
    (posts : List AccountPostState) {claimed : List AccountPostState}
    → SameNonces pres posts
    → apply_claims sha256 executing pres posts ≡ ok claimed
    → Kept pres posts claimed
unfolding apply_claims
apply_claims_lem sha256 executing [] [] same h = subst (Kept [] []) (ok-inj h) (tt, refl)
apply_claims_lem sha256 executing [] (post ∷ posts) same h = absurd same
apply_claims_lem sha256 executing (pre ∷ pres) [] same h = absurd same
apply_claims_lem sha256 executing (pre ∷ pres) (post ∷ posts) same h =
    let (first, e1, h1) = >>=-eq-ok (apply_claim sha256 executing pre post post.claim) _ h in
    let (rest, e2, h2) = >>=-eq-ok (apply_claims sha256 executing pres posts) _ h1 in
    let one = apply_claim_lem sha256 executing pre post post.claim e1 in
    let more = apply_claims_lem sha256 executing pres posts same.1 e2 in
    subst (Kept (pre ∷ pres) (post ∷ posts)) (ok-inj h2)
      ((same.0 ∙ sym one.1, more.0), omega (arith, one.0, more.1))

-- What `check_pre_states` has compared.
check_pre_states-AgreesWith :
    (accounts diff : HashMap Account) (pdas authorized : List AccountId)
    (pres : List AccountWithMetadata)
    → check_pre_states accounts diff pdas authorized pres ≡ ok tt
    → AgreesWith accounts diff pres
unfolding check_pre_states
check_pre_states-AgreesWith accounts diff pdas authorized [] h = tt
check_pre_states-AgreesWith accounts diff pdas authorized (pre ∷ pres) h = (
  ground (arith, account_eq_iff pre.account (expected_pre accounts diff pre.account_id)),
  check_pre_states-AgreesWith accounts diff pdas authorized pres (ground arith),
)

-- What holds of the diff at every round of the loop.
pub record IsSound (accounts diff : HashMap Account) : Type 0 where
  pub distinct : IsDistinct (keys diff)
  pub balanced : total_balance diff ≡ replaced accounts diff
  pub nonces : KeepsNonces accounts diff

module _ (host : Host) (state : V03State) (block_id timestamp : ℕ) where
  -- What an accepted output has passed, and the diff that it leaves.
  abbrev Passed :
      ChainedCall → CallerData → ProgramOutput → HashMap Account → HashMap Account → Type 0
  Passed call caller output diff diff' =
      (posts : List AccountPostState) × (check_pre_states state.public_state diff
          (compute_public_authorized_pdas host.sha256 caller.program_id call.pda_seeds)
          caller.authorized_accounts output.pre_states
        ≡ ok tt)
      × (validate_execution output.pre_states output.post_states call.program_id ≡ ok tt)
      × (apply_claims host.sha256 call.program_id output.pre_states output.post_states ≡ ok posts)
      × (diff' ≡ update_diff diff output.pre_states posts)

  check_output_inv :
      (call : ChainedCall) (caller : CallerData) (output : ProgramOutput) (diff : HashMap Account)
      {diff' : HashMap Account}
      → check_output host state block_id timestamp call caller output diff ≡ ok diff'
      → Passed call caller output diff diff'
  unfolding check_output
  check_output_inv call caller output diff h =
      elim (Result-cases
        (apply_claims host.sha256 call.program_id output.pre_states output.post_states)) [
          | inl (posts, e) ↦ (posts, ground arith, ground arith, e, ground arith)
          | inr (error, e) ↦ absurd (ground arith)
        ]

  check_output-IsSound :
      (call : ChainedCall) (caller : CallerData) (output : ProgramOutput) (diff : HashMap Account)
      {diff' : HashMap Account}
      → AreBalances output.pre_states output.post_states
      → check_output host state block_id timestamp call caller output diff ≡ ok diff'
      → IsSound state.public_state diff
      → IsSound state.public_state diff'
  check_output-IsSound call caller output diff b h s =
      let (posts, agrees, valid, claimed, e) = check_output_inv call caller output diff h in
      let pres = output.pre_states in
      let good = (validate_execution_iff pres output.post_states call.program_id b).0 valid in
      let agree = check_pre_states-AgreesWith state.public_state diff _ _ pres agrees in
      let (same, kept) =
        apply_claims_lem host.sha256 call.program_id pres output.post_states
          (SameNonces-rules pres output.post_states call.program_id good.rules) claimed in
      let next : IsSound state.public_state (update_diff diff pres posts) = record {
        distinct = keys-update_diff-IsDistinct diff pres posts s.distinct;
        balanced = omega (
          arith,
          total_balance-update_diff state.public_state diff pres posts good.distinct agree same,
          kept,
          good.conserved,
          s.balanced,
        );
        nonces =
            KeepsNonces-update_diff state.public_state diff pres posts good.distinct agree same
              s.nonces;
      } in
      subst (IsSound state.public_state) (sym e) next

  -- A call that is processed keeps the diff sound.
  pub process_call-IsSound :
      (call : ChainedCall) (caller : CallerData) (diff : HashMap Account) {diff' : HashMap Account}
      {calls : List Call}
      → DecodesBalances host
      → process_call host state block_id timestamp call caller diff ≡ ok (diff', calls)
      → IsSound state.public_state diff
      → IsSound state.public_state diff'
  unfolding process_call
  process_call-IsSound call caller diff {diff'} decodes h s =
      let (program, found, h1) =
        >>=-eq-ok (ok_or (HashMap.get state.programs call.program_id) _) _ h in
      let (output, ran, h2) =
        >>=-eq-ok (host.execute program caller.program_id call.pre_states call.instruction_data) _
          h1 in
      let (new_diff, checked, h3) =
        >>=-eq-ok (check_output host state block_id timestamp call caller output diff) _ h2 in
      subst (IsSound state.public_state) (ap (λ (r : HashMap Account × List Call). r.0) (ok-inj h3))
        (check_output-IsSound call caller output diff
          (decodes.decoded program caller.program_id call.pre_states call.instruction_data ran)
          checked s)
