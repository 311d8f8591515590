-- ===== src/MerkleTree/Doubling.antt =====
-- `reallocate_to_double_capacity`: the old tree is the left half of the new one.
use mathlib.Core.Path.{subst}
use lp_0002_private_multisig.Prelude.{
  ℕ, zero, suc, ◌+◌, ◌-◌, ◌*◌, ◌^◌, ◌≤◌, ◌<◌, ◌≡◌, sym, ◌∙◌, inl, inr, Option-cases, some, List, [],
  ◌∷◌, Bytes, length, get_elem?, arith,
}
use lp_0002_private_multisig.MerkleTree.{
  MerkleTree, with_capacity, embedded, prev_power_of_two, copy_nodes, reallocate_to_double_capacity,
}
use lp_0002_private_multisig.MerkleTree.Ancestors.{
  node, IsAbove, IsHashed, above_le, top_le, pow_pos,
}
use lp_0002_private_multisig.MerkleTree.Powers.{power_suc, power_split, ceil_le}
use lp_0002_private_multisig.MerkleTree.Insertion.{IsTree}
use lp_0002_private_multisig.MerkleTree.Growth.{
  Sized, with_capacity-Sized, prev_power_of_two-IsFloor,
}
use lp_0002_private_multisig.MerkleTree.Moves.{
  moved, moved-double, moved-double_suc, moved-leaf, length-copy_nodes, copy_nodes-at,
  moved-IsAbove,
}

pub get_elem?-lt : (xs : List Bytes) (i : ℕ) (v : Bytes) → get_elem? xs i ≡ some v → i < length xs
get_elem?-lt [] i v h = cc h
get_elem?-lt (x ∷ xs) zero v h = omega arith
get_elem?-lt (x ∷ xs) (suc i) v h = omega (arith, get_elem?-lt xs i v h)

module _ (sha256 : Bytes → Bytes) (t : MerkleTree) (values : List Bytes)
    (tree : IsTree sha256 t values) (full : t.length ≡ 2 ^ tree.height)
    (small : t.capacity ≤ 2 ^ 31) (doubled : MerkleTree)
    (is_doubled : with_capacity (t.capacity * 2) ≡ some doubled) where
  doubled_lem : Sized doubled (suc tree.height) × (doubled.length ≡ 0) × (doubled.capacity ≤ 2 ^ 31)
  doubled_lem =
      let same : t.capacity * 2 ≡ 2 ^ suc tree.height =
        omega (arith, tree.capacity, power_suc tree.height) in
      with_capacity-Sized (t.capacity * 2) (suc tree.height) (omega (arith, small))
        (record {
          above = omega (arith, same);
          least = inr (omega (arith, same, pow_pos (suc tree.height)));
        })
        is_doubled

  doubled-Sized : Sized doubled (suc tree.height)
  doubled-Sized = doubled_lem.0

  -- A node is at its new place.
  node-moved :
      (j : ℕ)
      → 1 ≤ j
      → j ≤ length t.nodes
      → node (copy_nodes t.nodes 0 doubled.nodes) (moved j) ≡ node t.nodes j
  node-moved j pos le =
      let (l, e, floor) = prev_power_of_two-IsFloor j pos in
      let shift : 0 + (j - 1) + 1 ≡ j = omega (arith, pos) in
      let place : 0 + (j - 1) + prev_power_of_two j ≡ moved j - 1 = omega (arith, pos) in
      let fits : 0 + (j - 1) + prev_power_of_two j < length doubled.nodes =
        omega (
          arith,
          e,
          floor.below,
          le,
          tree.nodes,
          doubled-Sized.nodes,
          power_suc tree.height,
          pos,
        ) in
      let copied =
        copy_nodes-at t.nodes 0 (j - 1) doubled.nodes (omega (arith, pos, le)) (rw shift fits) in
      rw (shift, place) at copied

  moved-IsHashed :
      (m : ℕ)
      → 1 ≤ m
      → 2 * m + 1 ≤ length t.nodes
      → IsHashed sha256 t.nodes m
      → IsHashed sha256 (copy_nodes t.nodes 0 doubled.nodes) (moved m)
  moved-IsHashed m pos le h =
      let here = node-moved m pos (omega (arith, le)) in
      let left = node-moved (2 * m) (omega (arith, pos)) (omega (arith, le)) in
      let right = node-moved (2 * m + 1) (omega (arith, pos)) le in
      rw (here, sym (moved-double_suc m pos), right, sym (moved-double m pos), left) h

  copied-IsHashed :
      (i m : ℕ)
      → i < t.length
      → IsAbove tree.levels (2 ^ suc tree.height + i) m
      → IsHashed sha256 (copy_nodes t.nodes 0 doubled.nodes) m
  copied-IsHashed i m lt above =
      let inside : i < 2 ^ tree.height = omega (arith, lt, full) in
      let b = 2 ^ tree.height + i in
      let place = moved-leaf tree.height i inside in
      let levels = ceil_le t.length tree.levels tree.height tree.ceil tree.room in
      let whole = power_split tree.levels tree.height levels in
      let top = 2 ^ (tree.height - tree.levels) in
      let pos = pow_pos (tree.height - tree.levels) in
      let low : top * 2 ^ tree.levels ≤ b = omega (arith, whole) in
      let (below, above', e) =
        moved-IsAbove tree.levels top b m pos low
          (subst (λ x. IsAbove tree.levels x m) (sym place) above) in
      let half = above_le tree.levels b below above' in
      let positive = top_le tree.levels top b below low above' in
      rw e (
        moved-IsHashed below (omega (arith, positive, pos))
          (omega (arith, half, tree.nodes, inside)) (tree.hashed i below lt above'))

  embedded-IsTree :
      (grown : IsTree sha256 (embedded t doubled) values) × (t.length < 2 ^ grown.height)
      × (doubled.capacity ≤ 2 ^ 31)
  embedded-IsTree = (
    record {
      height = suc tree.height;
      capacity = doubled-Sized.capacity;
      nodes = rw (length-copy_nodes t.nodes 0 doubled.nodes) doubled-Sized.nodes;
      count = tree.count;
      room = omega (arith, full, power_suc tree.height);
      leaves = λ i v found.
          let lt = get_elem?-lt values i v found in
          let inside : i < 2 ^ tree.height = omega (arith, lt, tree.count, full) in
          let place = moved-leaf tree.height i inside in
          rw (sym place) (
            node-moved (2 ^ tree.height + i) (omega (arith, pow_pos tree.height))
              (omega (arith, tree.nodes, inside))
            ∙ tree.leaves i v found);
      levels = tree.levels;
      ceil = tree.ceil;
      hashed = copied-IsHashed;
    },
    omega (arith, full, power_suc tree.height, pow_pos tree.height),
    doubled_lem.2,
  )

module _ (sha256 : Bytes → Bytes) where
  pub reallocate_to_double_capacity-IsTree :
      (t : MerkleTree) (values : List Bytes) {next : MerkleTree} (tree : IsTree sha256 t values)
      → t.length ≡ 2 ^ tree.height
      → t.capacity ≤ 2 ^ 31
      → reallocate_to_double_capacity t ≡ some next
      → (grown : IsTree sha256 next values) × (next.length < 2 ^ grown.height)
        × (next.capacity ≤ 2 ^ 31)
  unfolding reallocate_to_double_capacity
  reallocate_to_double_capacity-IsTree t values {next} tree full small h =
      elim (Option-cases (with_capacity (t.capacity * 2))) [
        | inl panic ↦ absurd (ground (arith, panic, h))
        | inr (doubled, is_doubled) ↦
            let is : embedded t doubled ≡ next = ground (arith, is_doubled, h) in
            subst
              (λ x.
                (grown : IsTree sha256 x values) × (x.length < 2 ^ grown.height)
                × (x.capacity ≤ 2 ^ 31))
              is (embedded-IsTree sha256 t values tree full small doubled is_doubled)
      ]
