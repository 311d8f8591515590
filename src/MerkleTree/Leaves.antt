-- ===== src/MerkleTree/Leaves.antt =====
-- A new leaf: which nodes stay hashes of their children.
use lp_0002_private_multisig.Prelude.{
  ℕ, zero, suc, ◌+◌, ◌-◌, ◌*◌, ◌/◌, ◌^◌, ◌≤◌, ◌<◌, ◌≡◌, ◌≢◌, ◌⊎◌, refl, sym, inl, inr, false, some,
  List, [], ◌∷◌, ◌++◌, Bytes, ◌==◌, ==_iff, Bool-cases, if◌then◌else◌, length, get_elem?, arith,
}
use lp_0002_private_multisig.MerkleTree.{set, hash_value}
use lp_0002_private_multisig.MerkleTree.Ancestors.{
  node, IsAbove, IsHashed, get_or-set, IsHashed-at, above_le, top-IsAbove, IsAbove-split,
}

-- An element of a list with one more at its end.
pub get_elem?-snoc :
    (xs : List Bytes) (v w : Bytes) (i : ℕ)
    → get_elem? (xs ++ v ∷ []) i ≡ some w
    → ((i ≡ length xs) × (v ≡ w)) ⊎ ((i < length xs) × (get_elem? xs i ≡ some w))
get_elem?-snoc [] v w zero h = inl (refl, cc h)
get_elem?-snoc [] v w (suc i) h = cc h
get_elem?-snoc (x ∷ xs) v w zero h = inr (omega arith, h)
get_elem?-snoc (x ∷ xs) v w (suc i) h = elim (get_elem?-snoc xs v w i h) [
  | inl (e, same) ↦ inl (omega (arith, e), same)
  | inr (lt, found) ↦ inr (omega (arith, lt), found)
]

module _ (sha256 : Bytes → Bytes) where
  -- The nodes with a new leaf.
  abbrev pub with_leaf : List Bytes → ℕ → Bytes → List Bytes
  with_leaf nodes b v = set nodes (b - 1) (hash_value sha256 v)

  pub node-with_leaf :
      (nodes : List Bytes) (b j : ℕ) (v : Bytes)
      → 1 ≤ b
      → b ≤ length nodes
      → 1 ≤ j
      → node (with_leaf nodes b v) j ≡ (if b == j then hash_value sha256 v else node nodes j)
  node-with_leaf nodes b j v pos fits posj = ground (
    arith,
    get_or-set nodes (b - 1) (j - 1) (hash_value sha256 v) (omega (arith, pos, fits)),
    pos,
    posj,
  )

  -- A leaf changes no hash but that of its parent.
  with_leaf-IsHashed :
      (nodes : List Bytes) (b m : ℕ) (v : Bytes)
      → b ≤ length nodes
      → 1 ≤ m
      → m < b
      → m ≢ b / 2
      → IsHashed sha256 nodes m
      → IsHashed sha256 (with_leaf nodes b v) m
  with_leaf-IsHashed nodes b m v fits pos below other h =
      let here : (b == m) ≡ false = ground (arith, below) in
      let left : (b == 2 * m) ≡ false = ground (arith, other) in
      let right : (b == 2 * m + 1) ≡ false = ground (arith, other) in
      IsHashed-at sha256 nodes (with_leaf nodes b v) m
        (rw here at (node-with_leaf nodes b m v (omega (arith, below)) fits pos))
        (rw left at
          (node-with_leaf nodes b (2 * m) v (omega (arith, below)) fits (omega (arith, pos))))
        (rw right at
          (node-with_leaf nodes b (2 * m + 1) v (omega (arith, below)) fits (omega (arith, pos))))
        h

  -- The places above a leaf that are to be hashes: those above an old leaf are, but for the parents of
  -- the new one.
  pub IsAbove-or_IsHashed :
      (e d top i n m : ℕ) (nodes : List Bytes) (v : Bytes)
      → let b = top * 2 ^ e + n in
        b ≤ length nodes
        → 1 ≤ top
        → i < n
        → n < 2 ^ e
        → top ≤ m
        → (e ≡ d) ⊎ (e ≡ suc d)
        → (IsAbove d (top * 2 ^ e + i) m → IsHashed sha256 nodes m)
        → IsAbove e (top * 2 ^ e + i) m
        → IsAbove e b m ⊎ IsHashed sha256 (with_leaf nodes b v) m
  IsAbove-or_IsHashed zero d top i n m nodes v fits pos old small at_top which h above =
      elim above [ ]
  IsAbove-or_IsHashed (suc e) d top i n m nodes v fits pos old small at_top which h above =
      let b = top * 2 ^ suc e + n in
      let keeps : IsHashed sha256 nodes m
          → IsAbove (suc e) b m ⊎ IsHashed sha256 (with_leaf nodes b v) m =
        λ hashed. elim (Bool-cases (m == b / 2)) [
          | inl parent ↦ inl (inl ((==_iff m (b / 2)).0 parent))
          | inr other ↦
              let half = above_le (suc e) (top * 2 ^ suc e + i) m above in
              let below : m < b = omega (arith, half, old, at_top, pos) in
              inr (
                with_leaf-IsHashed nodes b m v fits (omega (arith, at_top, pos)) below
                  (λ same. ground (arith, same, other)) hashed)
        ] in
      elim which [
        | inl same ↦ keeps (h (rw (sym same) above))
        | inr deeper ↦
            let less : d ≡ e = omega (arith, deeper) in
            elim (IsAbove-split e top i m (omega (arith, old, small)) above) [
              | inl is_top ↦ inl (rw is_top (top-IsAbove e top n small))
              | inr lower ↦ keeps (h (rw less lower))
            ]
      ]
