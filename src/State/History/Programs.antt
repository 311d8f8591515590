-- ===== src/State/History/Programs.antt =====
-- What no transition takes back: the deployed programs, the recognised digests, the commitments.
use mathlib.Core.Path.{subst}
use lp_0002_private_multisig.Prelude.{
  ◌≡◌, ap, ◌∙◌, true, none, some, List, [], ◌∷◌, Bytes, bytes_eq_iff, contains, arith, Option-cases,
  inl, inr,
}
use lp_0002_private_multisig.Prelude.HashMap
use lp_0002_private_multisig.Prelude.HashMap.{HashMap, get-insert}
use lp_0002_private_multisig.Core.Account.{ProgramId}
use lp_0002_private_multisig.Core.Commitments.{Commitment, CommitmentSetDigest}
use lp_0002_private_multisig.MerkleTree
use lp_0002_private_multisig.State.Types.{Program, CommitmentSet, V03State, StateDiff, Host}
use lp_0002_private_multisig.State.Apply.{
  apply_state_diff, insert_set, insert_commitments, extend_commitments, insert_program,
}
use lp_0002_private_multisig.State.Private.{
  PrivacyHost, contains_commitment, from_program_deployment_transaction,
}
use lp_0002_private_multisig.State.Private.Rules.{from_privacy_preserving_transaction_iff}
use lp_0002_private_multisig.State.Public.Conservation.{from_public_transaction_inv}
use lp_0002_private_multisig.State.History.{
  Validates, by_public, by_privacy, by_deployment, History, start, transition,
}
use lp_0002_private_multisig.State.History.Spent.{apply_state_diff_inv, contains-insert_set}

contains-insert_commitments :
    (sha256 : Bytes → Bytes) (cs : List Commitment) (set : CommitmentSet) (c : Commitment)
    (next : CommitmentSet)
    → insert_commitments sha256 cs set ≡ some next
    → contains_commitment set c ≡ true
    → contains_commitment next c ≡ true
unfolding insert_commitments contains_commitment
contains-insert_commitments sha256 [] set c next e h = ground (arith, e, h)
contains-insert_commitments sha256 (d ∷ ds) set c next e h =
    elim (Option-cases (MerkleTree.insert sha256 set.merkle_tree d)) [
      | inl panic ↦ absurd (ground (arith, panic, e))
      | inr (inserted, e') ↦
          contains-insert_commitments sha256 ds
            (record set {
              merkle_tree = inserted.0;
              commitments = HashMap.insert set.commitments d inserted.1;
            })
            c next (ground (arith, e', e))
            (ground (arith, get-insert set.commitments d c inserted.1))
    ]

root_history-insert_commitments :
    (sha256 : Bytes → Bytes) (cs : List Commitment) (set next : CommitmentSet)
    → insert_commitments sha256 cs set ≡ some next
    → next.root_history ≡ set.root_history
unfolding insert_commitments
root_history-insert_commitments sha256 [] set next e = ground (arith, e)
root_history-insert_commitments sha256 (d ∷ ds) set next e =
    elim (Option-cases (MerkleTree.insert sha256 set.merkle_tree d)) [
      | inl panic ↦ absurd (ground (arith, panic, e))
      | inr (inserted, e') ↦
          root_history-insert_commitments sha256 ds
            (record set {
              merkle_tree = inserted.0;
              commitments = HashMap.insert set.commitments d inserted.1;
            })
            next (ground (arith, e', e))
    ]

-- An extended set: the commitments inserted, and the new digest in the history.
pub extend_commitments_inv :
    (sha256 : Bytes → Bytes) (set : CommitmentSet) (cs : List Commitment) {next : CommitmentSet}
    → extend_commitments sha256 set cs ≡ some next
    → (extended : CommitmentSet) × (insert_commitments sha256 cs set ≡ some extended)
      × (record extended {
        root_history = insert_set extended.root_history (MerkleTree.root extended.merkle_tree);
      }
          ≡ next)
unfolding extend_commitments
extend_commitments_inv sha256 set cs h = elim (Option-cases (insert_commitments sha256 cs set)) [
  | inl panic ↦ absurd (ground (arith, panic, h))
  | inr (extended, e) ↦ (extended, e, ground (arith, e, h))
]

contains-extend_commitments :
    (sha256 : Bytes → Bytes) (set : CommitmentSet) (cs : List Commitment) (c : Commitment)
    {next : CommitmentSet}
    → extend_commitments sha256 set cs ≡ some next
    → contains_commitment set c ≡ true
    → contains_commitment next c ≡ true
unfolding contains_commitment
contains-extend_commitments sha256 set cs c h member =
    let (extended, e, is) = extend_commitments_inv sha256 set cs h in
    subst (λ (s : CommitmentSet). contains_commitment s c ≡ true) is
      (contains-insert_commitments sha256 cs set c extended e member)

root_history-extend_commitments :
    (sha256 : Bytes → Bytes) (set : CommitmentSet) (cs : List Commitment) (d : CommitmentSetDigest)
    {next : CommitmentSet}
    → extend_commitments sha256 set cs ≡ some next
    → contains set.root_history d ≡ true
    → contains next.root_history d ≡ true
root_history-extend_commitments sha256 set cs d h known =
    let (extended, e, is) = extend_commitments_inv sha256 set cs h in
    let same = root_history-insert_commitments sha256 cs set extended e in
    subst (λ (s : CommitmentSet). contains s.root_history d ≡ true) is
      (contains-insert_set extended.root_history (MerkleTree.root extended.merkle_tree) d
        ∙ ground (arith, ap (λ (l : List Bytes). contains l d) same, known))

-- What `s` has and `s'` must keep.
pub record Keeps (s s' : V03State) : Type 0 where
  pub programs_kept :
      (id : ProgramId) (p : Program)
      → HashMap.get s.programs id ≡ some p
      → HashMap.get s'.programs id ≡ some p
  pub commitments_kept :
      (c : Commitment)
      → contains_commitment s.commitment_set c ≡ true
      → contains_commitment s'.commitment_set c ≡ true
  pub digests_kept :
      (d : CommitmentSetDigest)
      → contains s.commitment_set.root_history d ≡ true
      → contains s'.commitment_set.root_history d ≡ true

module _ (host : Host) (privacy : PrivacyHost) where
  -- A validated diff deploys nothing, or a program with an id that is not in use.
  abbrev IsNew : V03State → StateDiff → Type 0
  IsNew s diff = (p : Program) → diff.program ≡ some p → HashMap.get s.programs p.id ≡ none

  Validates-IsNew : {s : V03State} {diff : StateDiff} → Validates host privacy s diff → IsNew s diff
  unfolding from_program_deployment_transaction
  Validates-IsNew {s} {diff} (by_public block_id timestamp tx h) p e =
      cc ((from_public_transaction_inv host s block_id timestamp tx h).no_program, e)
  Validates-IsNew {s} {diff} (by_privacy block_id timestamp tx h) p e =
      let (_, own) =
        (from_privacy_preserving_transaction_iff privacy s block_id timestamp tx diff).0 h in
      cc (ap (λ (d : StateDiff). d.program) own, e)
  Validates-IsNew {s} {diff} (by_deployment bytecode h) p e = ground (arith, h, e)

  get-insert_program :
      (programs : HashMap Program) (o : Program) (id : ProgramId) (p : Program)
      → HashMap.get programs o.id ≡ none
      → HashMap.get programs id ≡ some p
      → HashMap.get (HashMap.insert programs o.id o) id ≡ some p
  get-insert_program programs o id p new h =
      ground (arith, get-insert programs o.id id o, bytes_eq_iff o.id id)

  step-Keeps :
      {s s' : V03State} (diff : StateDiff)
      → IsNew s diff
      → apply_state_diff host.sha256 s diff ≡ some s'
      → Keeps s s'
  unfolding insert_program
  step-Keeps {s} {s'} diff new applied =
      let (_, set_eq, programs_eq) = apply_state_diff_inv host.sha256 s diff applied in
      record {
        programs_kept = λ id p h.
            ap (λ (m : HashMap Program). HashMap.get m id) programs_eq
            ∙ elim (Option-cases diff.program) [
              | inl e ↦ rw e h
              | inr (o, e) ↦ rw e (get-insert_program s.programs o id p (new o e) h)
            ];
        commitments_kept = λ c h.
            contains-extend_commitments host.sha256 s.commitment_set diff.new_commitments c set_eq
              h;
        digests_kept = λ d h.
            root_history-extend_commitments host.sha256 s.commitment_set diff.new_commitments d
              set_eq h;
      }

  -- Over any sequence of transitions, of all three kinds of transaction, every deployed program stays
  -- deployed under its id with its bytecode, every commitment stays in the set, and every digest of the
  -- set that was once recognised stays recognised.
  pub History-Keeps : {s s' : V03State} → History host privacy s s' → Keeps s s'
  History-Keeps start = record {
    programs_kept = λ id p h. h;
    commitments_kept = λ c h. h;
    digests_kept = λ d h. h;
  }
  History-Keeps (transition {diff = diff} before v applied) =
      let early = History-Keeps before in
      let late = step-Keeps diff (Validates-IsNew v) applied in
      record {
        programs_kept = λ id p h. late.programs_kept id p (early.programs_kept id p h);
        commitments_kept = λ c h. late.commitments_kept c (early.commitments_kept c h);
        digests_kept = λ d h. late.digests_kept d (early.digests_kept d h);
      }
