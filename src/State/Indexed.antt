-- ===== src/State/Indexed.antt =====
-- The index of every commitment in the tree, as `extend` keeps it.
use mathlib.Core.Path.{subst}
use lp_0002_private_multisig.Prelude.{
  ℕ, zero, suc, ◌^◌, ◌≤◌, ◌≡◌, refl, sym, inl, inr, some, List, [], ◌∷◌, ◌++◌, Bytes, bytes_eq,
  bytes_eq_iff, Bool-cases, Option-cases, length, get_elem?, arith,
}
use lp_0002_private_multisig.Prelude.HashMap
use lp_0002_private_multisig.Prelude.HashMap.{HashMap, get-insert}
use lp_0002_private_multisig.Core.Commitments.{Commitment}
use lp_0002_private_multisig.MerkleTree.{MerkleTree, insert}
use lp_0002_private_multisig.MerkleTree.Insertion.{IsTree}
use lp_0002_private_multisig.MerkleTree.Membership.{insert-IsTree}
use lp_0002_private_multisig.State.Types.{CommitmentSet}
use lp_0002_private_multisig.State.Apply.{insert_commitments}

get_elem?-earlier :
    (xs ys : List Bytes) (i : ℕ) (v : Bytes)
    → get_elem? xs i ≡ some v
    → get_elem? (xs ++ ys) i ≡ some v
get_elem?-earlier [] ys i v h = cc h
get_elem?-earlier (x ∷ xs) ys zero v h = h
get_elem?-earlier (x ∷ xs) ys (suc i) v h = get_elem?-earlier xs ys i v h

get_elem?-last : (xs : List Bytes) (v : Bytes) → get_elem? (xs ++ v ∷ []) (length xs) ≡ some v
get_elem?-last [] v = refl
get_elem?-last (x ∷ xs) v = get_elem?-last xs v

some-inj : {a b : CommitmentSet} → some a ≡ some b → a ≡ b
some-inj h = ground (arith, h)

module _ (sha256 : Bytes → Bytes) where
  -- The tree is that of some values, and the index of each commitment is that of its value.
  pub record IsIndexed (set : CommitmentSet) : Type 0 where
    pub values : List Bytes
    pub tree : IsTree sha256 set.merkle_tree values
    pub bounded : set.merkle_tree.capacity ≤ 2 ^ 31
    pub found :
        (c : Commitment) (i : ℕ)
        → HashMap.get set.commitments c ≡ some i
        → get_elem? values i ≡ some c

  -- The set with one more commitment.
  abbrev with_one : CommitmentSet → Commitment → MerkleTree × ℕ → CommitmentSet
  with_one set c inserted = record set {
    merkle_tree = inserted.0;
    commitments = HashMap.insert set.commitments c inserted.1;
  }

  with_one-IsIndexed :
      (set : CommitmentSet) (c : Commitment) (inserted : MerkleTree × ℕ)
      → IsIndexed set
      → insert sha256 set.merkle_tree c ≡ some inserted
      → IsIndexed (with_one set c inserted)
  with_one-IsIndexed set c (next, index) h is =
      let (tree, at, bounded) =
        insert-IsTree sha256 set.merkle_tree h.values c h.tree h.bounded is in
      record {
        values = h.values ++ c ∷ [];
        tree = tree;
        bounded = bounded;
        found = λ d i e.
            let read = get-insert set.commitments c d index in
            elim (Bool-cases (bytes_eq c d)) [
              | inl same ↦
                  let equal = (bytes_eq_iff c d).0 same in
                  let place : length h.values ≡ i = ground (arith, read, same, e, at) in
                  rw (sym place, sym equal) (get_elem?-last h.values c)
              | inr other ↦
                  let before : HashMap.get set.commitments d ≡ some i =
                    ground (arith, read, other, e) in
                  get_elem?-earlier h.values (c ∷ []) i d (h.found d i before)
            ];
      }

  pub insert_commitments-IsIndexed :
      (cs : List Commitment) (set next : CommitmentSet)
      → IsIndexed set
      → insert_commitments sha256 cs set ≡ some next
      → IsIndexed next
  unfolding insert_commitments
  insert_commitments-IsIndexed [] set next h is = subst IsIndexed (some-inj is) h
  insert_commitments-IsIndexed (c ∷ cs) set next h is =
      elim (Option-cases (insert sha256 set.merkle_tree c)) [
        | inl panic ↦ absurd (ground (arith, panic, is))
        | inr (inserted, e) ↦
            insert_commitments-IsIndexed cs (with_one set c inserted) next
              (with_one-IsIndexed set c inserted h e) (ground (arith, e, is))
      ]
