-- ===== src/State/Membership.antt =====
-- Proofs of membership: what `get_proof_for` returns leads to the digest of the set.
use mathlib.Core.Path.{subst}
use lp_0002_private_multisig.Prelude.{
  ℕ, ◌≡◌, refl, inl, inr, true, some, List, [], ◌∷◌, Bytes, bytes_eq_refl, contains, Bool-cases,
  Option-cases, arith,
}
use lp_0002_private_multisig.Prelude.HashMap
use lp_0002_private_multisig.Prelude.HashMap.{HashMap, get-insert}
use lp_0002_private_multisig.Core.Account.{AccountId, Account}
use lp_0002_private_multisig.Core.Commitments.{
  Commitment, Nullifier, MembershipProof, compute_digest_for_path,
}
use lp_0002_private_multisig.MerkleTree.{with_capacity, root, get_authentication_path_for}
use lp_0002_private_multisig.MerkleTree.Growth.{with_capacity-IsTree, with_capacity_le}
use lp_0002_private_multisig.MerkleTree.Membership.{get_authentication_path_for_lem}
use lp_0002_private_multisig.State.Types.{Program, CommitmentSet, V03State, Host}
use lp_0002_private_multisig.State.Apply.{insert_set, extend_commitments}
use lp_0002_private_multisig.State.Private.{PrivacyHost, contains_commitment}
use lp_0002_private_multisig.State.Genesis.{
  dummy_commitment, digest, get_proof_for, empty_commitments, first_commitments, default_state,
  unzip, with_public_account_balances, with_public_accounts, with_private_accounts, with_programs,
}
use lp_0002_private_multisig.State.History.{History, start, transition}
use lp_0002_private_multisig.State.History.Spent.{apply_state_diff_inv}
use lp_0002_private_multisig.State.History.Programs.{extend_commitments_inv}
use lp_0002_private_multisig.State.Indexed.{IsIndexed, insert_commitments-IsIndexed}

module _ (sha256 : Bytes → Bytes) where
  -- An extended set is indexed, and its history has its digest.
  pub record IsCurrent (set : CommitmentSet) : Type 0 where
    pub indexed : IsIndexed sha256 set
    pub recent : contains set.root_history (digest set) ≡ true

  extend_commitments-IsCurrent :
      (set : CommitmentSet) (cs : List Commitment) {next : CommitmentSet}
      → IsIndexed sha256 set
      → extend_commitments sha256 set cs ≡ some next
      → IsCurrent next
  unfolding digest insert_set contains
  extend_commitments-IsCurrent set cs h e =
      let (extended, inserted, is) = extend_commitments_inv sha256 set cs e in
      let indexed = insert_commitments-IsIndexed sha256 cs set extended h inserted in
      let here = bytes_eq_refl (root extended.merkle_tree) in
      let current : IsCurrent (record extended {
        root_history = insert_set extended.root_history (root extended.merkle_tree);
      }) =
        record {
          indexed = record {
            values = indexed.values;
            tree = indexed.tree;
            bounded = indexed.bounded;
            found = indexed.found;
          };
          recent = elim (Bool-cases (contains extended.root_history (root extended.merkle_tree))) [
            | inl old ↦ rw (old, old) refl
            | inr new ↦ rw (new, here) refl
          ];
        } in
      subst IsCurrent is current

  get_proof_for_at :
      (set : CommitmentSet) (c : Commitment) (i : ℕ) (path : List Bytes)
      → HashMap.get set.commitments c ≡ some i
      → get_authentication_path_for set.merkle_tree i ≡ some path
      → get_proof_for set c ≡ some (i, path)
  unfolding get_proof_for
  get_proof_for_at set c i path e reads = ground (arith, e, reads)

  get_proof_for_lem :
      (set : CommitmentSet) (c : Commitment)
      → IsIndexed sha256 set
      → contains_commitment set c ≡ true
      → (proof : MembershipProof) × (get_proof_for set c ≡ some proof)
        × (compute_digest_for_path sha256 c proof ≡ digest set)
  unfolding get_proof_for digest contains_commitment compute_digest_for_path
  get_proof_for_lem set c h member = elim (Option-cases (HashMap.get set.commitments c)) [
    | inl missing ↦ absurd (ground (arith, missing, member))
    | inr (i, e) ↦
        let (path, reads, leads) =
          get_authentication_path_for_lem sha256 set.merkle_tree h.values i c h.tree h.bounded
            (h.found c i e) in
        ((i, path), get_proof_for_at set c i path e reads, leads)
  ]

  empty_commitments-IsIndexed :
      (set : CommitmentSet) → empty_commitments 32 ≡ some set → IsIndexed sha256 set
  unfolding empty_commitments HashMap.get
  empty_commitments-IsIndexed set h = elim (Option-cases (with_capacity 32)) [
    | inl panic ↦ absurd (ground (arith, panic, h))
    | inr (tree, e) ↦
        let empty : CommitmentSet = record {
          merkle_tree = tree;
          commitments = [];
          root_history = [];
        } in
        let is : empty ≡ set = ground (arith, e, h) in
        let indexed : IsIndexed sha256 empty = record {
          values = [];
          tree = with_capacity-IsTree sha256 32 (omega arith) e;
          bounded = with_capacity_le 32 (omega arith) e;
          found = λ c i none_there. absurd (ground (arith, none_there));
        } in
        subst (IsIndexed sha256) is indexed
  ]

  default_state-IsCurrent :
      (s : V03State) → default_state sha256 ≡ some s → IsCurrent s.commitment_set
  unfolding default_state first_commitments
  default_state-IsCurrent s h = elim (Option-cases (empty_commitments 32)) [
    | inl panic ↦ absurd (ground (arith, panic, h))
    | inr (empty, e) ↦
        let extended : extend_commitments sha256 empty (dummy_commitment ∷ [])
            ≡ some s.commitment_set =
          elim (Option-cases (extend_commitments sha256 empty (dummy_commitment ∷ []))) [
            | inl panic ↦ absurd (ground (arith, e, panic, h))
            | inr (set, e') ↦ ground (arith, e, e', h)
          ] in
        extend_commitments-IsCurrent empty (dummy_commitment ∷ [])
          (empty_commitments-IsIndexed empty e) extended
  ]

  -- With private accounts from the start, the dummy commitment before them.
  with_private_accounts-IsCurrent :
      (s seeded : V03State) (private_accounts : List (Commitment × Nullifier))
      → IsCurrent s.commitment_set
      → with_private_accounts sha256 s private_accounts ≡ some seeded
      → IsCurrent seeded.commitment_set
  unfolding with_private_accounts
  with_private_accounts-IsCurrent s seeded private_accounts current h =
      let commitments = (unzip private_accounts).0 in
      elim (Option-cases (extend_commitments sha256 s.commitment_set commitments)) [
        | inl panic ↦ absurd (ground (arith, panic, h))
        | inr (set, e) ↦
            let is : set ≡ seeded.commitment_set = ground (arith, e, h) in
            subst IsCurrent is
              (extend_commitments-IsCurrent s.commitment_set commitments current.indexed e)
      ]

module _ (host : Host) (privacy : PrivacyHost) where
  History-IsCurrent :
      {s s' : V03State}
      → IsCurrent host.sha256 s.commitment_set
      → History host privacy s s'
      → IsCurrent host.sha256 s'.commitment_set
  History-IsCurrent first start = first
  History-IsCurrent first (transition {s' = s'} {diff = diff} before v applied) =
      let (_, extended, _) = apply_state_diff_inv host.sha256 s' diff applied in
      extend_commitments-IsCurrent host.sha256 s'.commitment_set diff.new_commitments
        (History-IsCurrent first before).indexed extended

  -- In every state that transitions lead to, without a panic, from a seeded one, whatever accounts and
  -- programs it was seeded with, `get_proof_for` returns for each commitment of the set an index with a
  -- path, the digest that `compute_digest_for_path` computes from them is that of the set, and it is
  -- recognised.
  pub History-get_proof_for :
      (balances : List (AccountId × ℕ)) (accounts : List (AccountId × Account))
      (private_accounts : List (Commitment × Nullifier)) (programs : List Program)
      {default seeded s : V03State} (c : Commitment)
      → default_state host.sha256 ≡ some default
      → with_private_accounts host.sha256 default private_accounts ≡ some seeded
      → History host privacy
          (with_programs
            (with_public_accounts (with_public_account_balances seeded balances) accounts)
            programs)
          s
      → contains_commitment s.commitment_set c ≡ true
      → (proof : MembershipProof) × (get_proof_for s.commitment_set c ≡ some proof)
        × (compute_digest_for_path host.sha256 c proof ≡ digest s.commitment_set)
        × (contains s.commitment_set.root_history (digest s.commitment_set) ≡ true)
  unfolding with_public_account_balances with_public_accounts with_programs
  History-get_proof_for balances accounts private_accounts programs {default} {seeded} {s} c first
        seeds history member =
      let start_current =
        with_private_accounts-IsCurrent host.sha256 default seeded private_accounts
          (default_state-IsCurrent host.sha256 default first) seeds in
      let current = History-IsCurrent start_current history in
      let (proof, reads, leads) =
        get_proof_for_lem host.sha256 s.commitment_set c current.indexed member in
      (proof, reads, leads, current.recent)
