-- ===== src/MerkleTree/Insertion.antt =====
-- Trees of inserted values, and an insertion into a tree that is not full.
use mathlib.Core.Path.{subst}
use lp_0002_private_multisig.Prelude.{
  ℕ, suc, ◌+◌, ◌-◌, ◌*◌, ◌^◌, ◌≤◌, ◌<◌, ◌≡◌, ◌⊎◌, sym, ap, ◌∙◌, inl, inr, true, false, some, List,
  [], ◌∷◌, ◌++◌, Bytes, ◌==◌, Bool-cases, if◌then◌else◌, length, length-append, get_elem?, arith,
}
use lp_0002_private_multisig.MerkleTree.{MerkleTree, hash_value, update_parents, depth}
use lp_0002_private_multisig.MerkleTree.Ancestors.{
  node, IsAbove, IsHashed, length-set, top_le, pow_pos,
}
use lp_0002_private_multisig.MerkleTree.Powers.{
  IsCeil, ceil_le, ceil_suc, power_split, depth-IsCeil,
}
use lp_0002_private_multisig.MerkleTree.Updates.{
  update_parents-IsHashed, update_parents-leaf, length-update_parents,
}
use lp_0002_private_multisig.MerkleTree.Leaves.{
  get_elem?-snoc, with_leaf, node-with_leaf, IsAbove-or_IsHashed,
}

module _ (sha256 : Bytes → Bytes) where
  -- A tree of 2 ^ height places for values, that has these ones.
  pub record IsTree (t : MerkleTree) (values : List Bytes) : Type 0 where
    pub height : ℕ
    pub capacity : t.capacity ≡ 2 ^ height
    pub nodes : length t.nodes + 1 ≡ 2 * 2 ^ height
    pub count : t.length ≡ length values
    pub room : t.length ≤ 2 ^ height
    pub leaves :
        (i : ℕ) (v : Bytes)
        → get_elem? values i ≡ some v
        → node t.nodes (2 ^ height + i) ≡ hash_value sha256 v
    pub levels : ℕ
    pub ceil : IsCeil t.length levels
    pub hashed :
        (i m : ℕ) → i < t.length → IsAbove levels (2 ^ height + i) m → IsHashed sha256 t.nodes m

  -- The rest of `insert`, where the tree has room.
  abbrev pub insert_grown : MerkleTree → Bytes → MerkleTree
  insert_grown t v =
      let b = t.length + t.capacity in
      let longer : MerkleTree = record t {
        nodes = with_leaf sha256 t.nodes b v;
        length = t.length + 1;
      } in
      record longer { nodes = update_parents sha256 (depth longer) (b - 1) longer.nodes }

  module _ (t : MerkleTree) (values : List Bytes) (v : Bytes) (tree : IsTree t values)
      (free : t.length < 2 ^ tree.height) (small : t.length + 1 ≤ 2 ^ 62) where
    abbrev longer : MerkleTree
    longer = record t {
      nodes = with_leaf sha256 t.nodes (t.length + t.capacity) v;
      length = t.length + 1;
    }

    abbrev up : ℕ
    up = depth longer

    abbrev top : ℕ
    top = 2 ^ (tree.height - up)

    -- Where the new leaf stands, and how far below the top.
    record Placed : Type 0 where
      ceil_up : IsCeil (t.length + 1) up
      level : (up ≡ tree.levels) ⊎ (up ≡ suc tree.levels)
      whole : top * 2 ^ up ≡ 2 ^ tree.height
      place : t.length + t.capacity ≡ top * 2 ^ up + t.length
      fits : top * 2 ^ up + t.length ≤ length t.nodes
      positive : 1 ≤ top
      within : t.length < 2 ^ up

    placed : Placed
    placed =
        let ceil_up = depth-IsCeil longer small in
        let levels = ceil_le (t.length + 1) up tree.height ceil_up (omega (arith, free)) in
        let whole = power_split up tree.height levels in
        record {
          ceil_up = ceil_up;
          level = elim (ceil_suc t.length tree.levels up tree.ceil ceil_up) [
            | inl same ↦ inl same
            | inr more ↦ inr more.0
          ];
          whole = whole;
          place = omega (arith, whole, tree.capacity);
          fits = omega (arith, whole, tree.nodes, free);
          positive = pow_pos (tree.height - up);
          within = omega (arith, ceil_up.above);
        }

    longer-fits : top * 2 ^ up + t.length ≤ length longer.nodes
    longer-fits =
        rw (length-set t.nodes (t.length + t.capacity - 1) (hash_value sha256 v)) (placed.fits)

    insert_grown-leaf :
        (i : ℕ)
        → i ≤ t.length
        → node (insert_grown t v).nodes (2 ^ tree.height + i)
          ≡ (if t.length == i then hash_value sha256 v else node t.nodes (2 ^ tree.height + i))
    insert_grown-leaf i le =
        let b = t.length + t.capacity in
        let j = 2 ^ tree.height + i in
        let fits : b ≤ length t.nodes = omega (arith, placed.place, placed.fits) in
        let pos : 1 ≤ 2 ^ tree.height = pow_pos tree.height in
        let kept =
          update_parents-leaf sha256 up top b j longer.nodes placed.positive
            (omega (arith, placed.place)) (omega (arith, placed.place, longer-fits))
            (omega (arith, tree.capacity, free)) in
        let written =
          node-with_leaf sha256 t.nodes b j v (omega (arith, tree.capacity, pos)) fits
            (omega (arith, pos)) in
        elim (Bool-cases (t.length == i)) [
          | inl last ↦
              let here : (b == j) ≡ true = ground (arith, last, tree.capacity) in
              rw last (kept ∙ (rw here at written))
          | inr old ↦
              let there : (b == j) ≡ false = ground (arith, old, tree.capacity) in
              rw old (kept ∙ (rw there at written))
        ]

    insert_grown-IsHashed :
        (i m : ℕ)
        → i < t.length + 1
        → IsAbove up (2 ^ tree.height + i) m
        → IsHashed sha256 (insert_grown t v).nodes m
    insert_grown-IsHashed i m lt above =
        let n = t.length in
        let b = n + t.capacity in
        let low : top * 2 ^ up ≤ top * 2 ^ up + i = omega arith in
        let above' : IsAbove up (top * 2 ^ up + i) m = rw placed.whole above in
        let at_top = top_le up top (top * 2 ^ up + i) m low above' in
        let fits : b ≤ length longer.nodes = omega (arith, placed.place, longer-fits) in
        let high : b < (top + 1) * 2 ^ up = omega (arith, placed.place, placed.within) in
        let done =
          update_parents-IsHashed sha256 up top b m longer.nodes placed.positive
            (omega (arith, placed.place)) high fits at_top in
        elim (Bool-cases (n == i)) [
          | inl last ↦
              let same : top * 2 ^ up + i ≡ b = ground (arith, last, placed.place) in
              done (inl (subst (λ x. IsAbove up x m) same above'))
          | inr old ↦
              let earlier : i < n = ground (arith, old, lt) in
              let right =
                IsAbove-or_IsHashed sha256 up tree.levels top i n m t.nodes v placed.fits
                  placed.positive earlier placed.within at_top placed.level
                  (λ lower. tree.hashed i m earlier (rw (sym placed.whole) lower)) above' in
              done (
                subst (λ x. IsAbove up x m ⊎ IsHashed sha256 (with_leaf sha256 t.nodes x v) m)
                  (sym placed.place) right)
        ]

    insert_grown-leaves :
        (i : ℕ) (w : Bytes)
        → get_elem? (values ++ v ∷ []) i ≡ some w
        → node (insert_grown t v).nodes (2 ^ tree.height + i) ≡ hash_value sha256 w
    insert_grown-leaves i w found = elim (get_elem?-snoc values v w i found) [
      | inl (last, same) ↦
          let here : (t.length == i) ≡ true = ground (arith, last, tree.count) in
          (rw here at (insert_grown-leaf i (omega (arith, last, tree.count))))
          ∙ ap (hash_value sha256) same
      | inr (old, earlier) ↦
          let there : (t.length == i) ≡ false = ground (arith, old, tree.count) in
          (rw there at (insert_grown-leaf i (omega (arith, old, tree.count))))
          ∙ tree.leaves i w earlier
    ]

    pub insert_grown-IsTree : IsTree (insert_grown t v) (values ++ v ∷ [])
    insert_grown-IsTree =
        let b = t.length + t.capacity in
        let same =
          length-update_parents sha256 up (b - 1) longer.nodes
          ∙ length-set t.nodes (b - 1) (hash_value sha256 v) in
        record {
          height = tree.height;
          capacity = tree.capacity;
          nodes = omega (arith, same, tree.nodes);
          count = omega (arith, length-append values (v ∷ []), tree.count);
          room = omega (arith, free);
          leaves = insert_grown-leaves;
          levels = up;
          ceil = placed.ceil_up;
          hashed = insert_grown-IsHashed;
        }
