-- ===== src/MerkleTree/Membership.antt =====
-- Every inserted value has a path that leads from it to the root.
use mathlib.Core.Path.{subst}
use lp_0002_private_multisig.Prelude.{
  ℕ, ◌+◌, ◌-◌, ◌*◌, ◌^◌, ◌≤◌, ◌<◌, ◌≡◌, refl, sym, ap, ◌∙◌, inl, inr, false, some, List, [], ◌∷◌,
  ◌++◌, Bytes, leb, ◌==◌, ==_iff, Bool-cases, Option-cases, if◌then◌else◌, length, get_elem?, arith,
}
use lp_0002_private_multisig.Core.Commitments.{digest_along}
use lp_0002_private_multisig.MerkleTree.{
  MerkleTree, hash_value, depth, root_index, root, insert, insert_with_room, climb_path,
  trailing_zeros, get_authentication_path_for, reallocate_to_double_capacity,
}
use lp_0002_private_multisig.MerkleTree.Ancestors.{node, pow_pos}
use lp_0002_private_multisig.MerkleTree.Paths.{digest_along-climb_path}
use lp_0002_private_multisig.MerkleTree.Powers.{
  ceil_le, ceil_unique, depth-IsCeil, power_split, trailing_zeros-power, below_power, exponent_lt,
}
use lp_0002_private_multisig.MerkleTree.Insertion.{IsTree, insert_grown, insert_grown-IsTree}
use lp_0002_private_multisig.MerkleTree.Doubling.{
  get_elem?-lt, reallocate_to_double_capacity-IsTree,
}

module _ (sha256 : Bytes → Bytes) where
  -- What `insert` inserts into: the tree, or one of twice the capacity where it is full.
  grown_lem :
      (t : MerkleTree) (values : List Bytes) {next : MerkleTree} {i : ℕ} (v : Bytes)
      → insert sha256 t v ≡ some (next, i)
      → (grown : MerkleTree) × ((if t.length == t.capacity
            then reallocate_to_double_capacity t
            else some t)
          ≡ some grown)
        × (insert_grown sha256 grown v ≡ next)
        × (grown.length ≡ i)
  unfolding insert insert_with_room
  grown_lem t values {next} {i} v h =
      elim (Option-cases
        (if t.length == t.capacity then reallocate_to_double_capacity t else some t)) [
          | inl panic ↦ absurd (ground (arith, panic, h))
          | inr (grown, e) ↦
              let is : insert_with_room sha256 grown v ≡ (next, i) = ground (arith, e, h) in
              (grown, e, ap (λ r. r.0) is, ap (λ r. r.1) is)
        ]

  pub insert-IsTree :
      (t : MerkleTree) (values : List Bytes) (v : Bytes) {next : MerkleTree} {i : ℕ}
      → IsTree sha256 t values
      → t.capacity ≤ 2 ^ 31
      → insert sha256 t v ≡ some (next, i)
      → IsTree sha256 next (values ++ v ∷ []) × (i ≡ length values) × (next.capacity ≤ 2 ^ 31)
  insert-IsTree t values v {next} {i} tree small h =
      let (grown, e, is, index) = grown_lem t values v h in
      elim (Bool-cases (t.length == t.capacity)) [
        | inr room ↦
            let same : t ≡ grown = ground (arith, room, e) in
            let free : t.length < 2 ^ tree.height =
              ground (arith, room, tree.room, tree.capacity) in
            let inserted =
              insert_grown-IsTree sha256 t values v tree free
                (omega (arith, free, tree.capacity, small)) in
            (
              subst (λ x. IsTree sha256 x (values ++ v ∷ []))
                  (ap (λ x. insert_grown sha256 x v) same ∙ is) inserted,
              omega (arith, ap (λ (x : MerkleTree). x.length) same, index, tree.count),
              subst (λ (x : MerkleTree). x.capacity ≤ 2 ^ 31)
                  (ap (λ x. insert_grown sha256 x v) same ∙ is) small,
            )
        | inl full ↦
            let all : t.length ≡ 2 ^ tree.height = ground (arith, full, tree.capacity) in
            let doubled : reallocate_to_double_capacity t ≡ some grown = ground (arith, full, e) in
            let (larger, free, small') =
              reallocate_to_double_capacity-IsTree sha256 t values tree all small doubled in
            let inserted =
              insert_grown-IsTree sha256 grown values v larger free
                (omega (arith, free, larger.capacity, small')) in
            (
              subst (λ x. IsTree sha256 x (values ++ v ∷ [])) is inserted,
              omega (arith, index, larger.count),
              subst (λ (x : MerkleTree). x.capacity ≤ 2 ^ 31) is small',
            )
      ]

  -- The root is the top of the places above the leaves.
  root_index_lem :
      (t : MerkleTree) (values : List Bytes) (tree : IsTree sha256 t values)
      → t.capacity ≤ 2 ^ 31
      → root_index t ≡ 2 ^ (tree.height - tree.levels) - 1
  unfolding root_index
  root_index_lem t values tree bounded =
      let lt : 2 ^ tree.height < 2 ^ 64 = omega (arith, tree.capacity, bounded) in
      let high = exponent_lt tree.height 64 lt in
      let zeros : trailing_zeros t.capacity ≡ tree.height =
        rw tree.capacity (trailing_zeros-power tree.height high) in
      let small : t.length ≤ 2 ^ 62 = omega (arith, tree.room, tree.capacity, bounded) in
      let deep : depth t ≡ tree.levels =
        ceil_unique t.length (depth t) tree.levels (depth-IsCeil t small) tree.ceil in
      rw (zeros, deep)
        (elim (Bool-cases (tree.levels == tree.height)) [
          | inl whole ↦
              let same = (==_iff tree.levels tree.height).0 whole in
              let none_left : tree.height - tree.levels ≡ 0 = omega (arith, same) in
              rw (whole, none_left) refl
          | inr part ↦ rw part refl
        ])

  -- The path of a value leads to the root.
  pub get_authentication_path_for_lem :
      (t : MerkleTree) (values : List Bytes) (i : ℕ) (v : Bytes)
      → IsTree sha256 t values
      → t.capacity ≤ 2 ^ 31
      → get_elem? values i ≡ some v
      → (path : List Bytes) × (get_authentication_path_for t i ≡ some path)
        × (digest_along sha256 (sha256 v) i path ≡ root t)
  unfolding get_authentication_path_for root hash_value
  get_authentication_path_for_lem t values i v tree bounded found =
      let lt : i < t.length = omega (arith, get_elem?-lt values i v found, tree.count) in
      let inside : leb t.length i ≡ false = ground (arith, lt) in
      let levels = ceil_le t.length tree.levels tree.height tree.ceil tree.room in
      let whole = power_split tree.levels tree.height levels in
      let top = 2 ^ (tree.height - tree.levels) in
      let rounds = t.capacity + i in
      let enough : tree.levels ≤ rounds =
        omega (arith, levels, below_power tree.height, tree.capacity) in
      let within : i < 2 ^ tree.levels = omega (arith, lt, tree.ceil.above) in
      let leads =
        digest_along-climb_path sha256 tree.levels rounds top i t.nodes
          (pow_pos (tree.height - tree.levels)) enough within
          (λ m above. tree.hashed i m lt (rw (sym whole) above)) in
      let place : top * 2 ^ tree.levels + i ≡ t.capacity + i = rw (whole, tree.capacity) refl in
      let leaf : node t.nodes (t.capacity + i) ≡ sha256 v =
        rw tree.capacity (tree.leaves i v found) in
      let index = root_index_lem t values tree bounded in
      rw (inside, index)
        (
          climb_path rounds t.nodes (top - 1) (t.capacity + i - 1),
          refl,
          rw leaf at (rw place at leads),
        )
