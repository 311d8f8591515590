-- ===== src/MerkleTree/Updates.antt =====
-- The loop of `insert` that updates the parents: which nodes are hashes of their children at its end.
use native.Mathlib.Nat.{mul-le-mul_left}
use lp_0002_private_multisig.Prelude.{
  ℕ, zero, suc, ◌+◌, ◌-◌, ◌*◌, ◌/◌, ◌^◌, ◌≤◌, ◌<◌, ◌≡◌, ◌≢◌, ◌⊎◌, refl, ◌∙◌, inl, inr, List, Bytes,
  ◌==◌, ==_iff, Bool-cases, length, arith,
}
use lp_0002_private_multisig.MerkleTree.{get_or, set, hash_two, update_parents}
use lp_0002_private_multisig.MerkleTree.Ancestors.{
  node, IsAbove, pow_pos, double_power, length-set, get_or-set, IsHashed, IsHashed-at,
}

module _ (sha256 : Bytes → Bytes) where
  -- One round of the update: the parent of `b` gets the hash of its children.
  abbrev pub updated : List Bytes → ℕ → List Bytes
  updated nodes b =
      set nodes (b / 2 - 1)
        (hash_two sha256 (node nodes (2 * (b / 2))) (node nodes (2 * (b / 2) + 1)))

  pub node-updated :
      (nodes : List Bytes) (b m : ℕ)
      → 2 ≤ b
      → b ≤ length nodes
      → 1 ≤ m
      → m ≢ b / 2
      → node (updated nodes b) m ≡ node nodes m
  node-updated nodes b m two fits pos other = ground (
    arith,
    get_or-set nodes (b / 2 - 1) (m - 1)
        (hash_two sha256 (node nodes (2 * (b / 2))) (node nodes (2 * (b / 2) + 1)))
        (omega (arith, two, fits)),
    other,
  )

  updated-IsHashed :
      (nodes : List Bytes) (b : ℕ)
      → 2 ≤ b
      → b ≤ length nodes
      → IsHashed sha256 (updated nodes b) (b / 2)
  updated-IsHashed nodes b two fits =
      let m = b / 2 in
      let left : node (updated nodes b) (2 * m) ≡ node nodes (2 * m) =
        node-updated nodes b (2 * m) two fits (omega (arith, two)) (λ e. omega (arith, e, two)) in
      let right : node (updated nodes b) (2 * m + 1) ≡ node nodes (2 * m + 1) =
        node-updated nodes b (2 * m + 1) two fits (omega (arith, two))
          (λ e. omega (arith, e, two)) in
      rw (left, right)
        (ground (
          arith,
          get_or-set nodes (b / 2 - 1) (m - 1)
              (hash_two sha256 (node nodes (2 * (b / 2))) (node nodes (2 * (b / 2) + 1)))
              (omega (arith, two, fits)),
        ))

  update_parents_step :
      (levels b : ℕ) (nodes : List Bytes)
      → 2 ≤ b
      → update_parents sha256 (suc levels) (b - 1) nodes
        ≡ update_parents sha256 levels (b / 2 - 1) (updated nodes b)
  unfolding update_parents
  update_parents_step levels b nodes two =
      let parent : (b - 1 - 1) / 2 ≡ b / 2 - 1 = omega (arith, two) in
      let left : (b / 2 - 1) * 2 + 1 ≡ 2 * (b / 2) - 1 = omega (arith, two) in
      let right : (b / 2 - 1) * 2 + 2 ≡ 2 * (b / 2) + 1 - 1 = omega (arith, two) in
      rw (parent, left, right) refl

  -- A parent of the node that is updated, if it is not below the top, is updated next.
  parent-IsAbove :
      (levels top b m : ℕ)
      → 1 ≤ top
      → top * 2 ^ levels ≤ b / 2
      → b / 2 < (top + 1) * 2 ^ levels
      → top ≤ m
      → m ≡ b / 2 / 2
      → IsAbove levels (b / 2) m
  parent-IsAbove zero top b m pos low high at_top e = absurd (omega (arith, pos, high, at_top, e))
  parent-IsAbove (suc levels) top b m pos low high at_top e = inl e

  -- One round: the places that are to be updated, and those that are right.
  updated_round :
      (levels top b m : ℕ) (nodes : List Bytes)
      → 1 ≤ top
      → 2 ≤ b
      → top * 2 ^ levels ≤ b / 2
      → b / 2 < (top + 1) * 2 ^ levels
      → b ≤ length nodes
      → top ≤ m
      → IsAbove (suc levels) b m ⊎ IsHashed sha256 nodes m
      → IsAbove levels (b / 2) m ⊎ IsHashed sha256 (updated nodes b) m
  updated_round levels top b m nodes pos two low high fits at_top (inl (inr above)) = inl above
  updated_round levels top b m nodes pos two low high fits at_top (inl (inl e)) =
      inr (rw e (updated-IsHashed nodes b two fits))
  updated_round levels top b m nodes pos two low high fits at_top (inr hashed) =
      elim (Bool-cases (m == b / 2)) [
        | inl same ↦ inr (rw ((==_iff m (b / 2)).0 same) (updated-IsHashed nodes b two fits))
        | inr other ↦ elim (Bool-cases (m == b / 2 / 2)) [
          | inl parent ↦
              inl (
                parent-IsAbove levels top b m pos low high at_top ((==_iff m (b / 2 / 2)).0 parent))
          | inr far ↦
              let differs : m ≢ b / 2 / 2 = λ e. ground (arith, e, far) in
              let here = node-updated nodes b m two fits (omega (arith, pos, at_top)) in
              let left =
                node-updated nodes b (2 * m) two fits (omega (arith, pos, at_top))
                  (λ e. differs (omega (arith, e))) in
              let right =
                node-updated nodes b (2 * m + 1) two fits (omega (arith, pos, at_top))
                  (λ e. differs (omega (arith, e))) in
              inr (
                IsHashed-at sha256 nodes (updated nodes b) m (here (λ e. ground (arith, e, other)))
                  left right hashed)
        ]
      ]

  -- What an update of so many levels above `b` does: the places above `b` are hashes of their children
  -- at the end, and so is every other place from the top on that was before.
  pub update_parents-IsHashed :
      (levels top b m : ℕ) (nodes : List Bytes)
      → 1 ≤ top
      → top * 2 ^ levels ≤ b
      → b < (top + 1) * 2 ^ levels
      → b ≤ length nodes
      → top ≤ m
      → IsAbove levels b m ⊎ IsHashed sha256 nodes m
      → IsHashed sha256 (update_parents sha256 levels (b - 1) nodes) m
  unfolding update_parents
  update_parents-IsHashed zero top b m nodes pos low high fits at_top (inl above) = elim above [ ]
  update_parents-IsHashed zero top b m nodes pos low high fits at_top (inr h) = h
  update_parents-IsHashed (suc levels) top b m nodes pos low high fits at_top h =
      let low' : top * 2 ^ levels ≤ b / 2 = omega (arith, low, double_power top levels) in
      let high' : b / 2 < (top + 1) * 2 ^ levels =
        omega (arith, high, double_power (top + 1) levels) in
      let up : top * 1 ≤ top * 2 ^ levels = mul-le-mul_left top (pow_pos levels) in
      let two : 2 ≤ b = omega (arith, pos, low', up) in
      let kept = updated_round levels top b m nodes pos two low' high' fits at_top h in
      let long : b / 2 ≤ length (updated nodes b) =
        rw
          (length-set nodes (b / 2 - 1)
            (hash_two sha256 (node nodes (2 * (b / 2))) (node nodes (2 * (b / 2) + 1))))
          (omega (arith, fits)) in
      rw (update_parents_step levels b nodes two) (
        update_parents-IsHashed levels top (b / 2) m (updated nodes b) pos low' high' long at_top
          kept)

  pub length-update_parents :
      (levels index : ℕ) (nodes : List Bytes)
      → length (update_parents sha256 levels index nodes) ≡ length nodes
  unfolding update_parents
  length-update_parents zero index nodes = refl
  length-update_parents (suc levels) index nodes =
      let parent = (index - 1) / 2 in
      let v = hash_two sha256 (get_or nodes (parent * 2 + 1)) (get_or nodes (parent * 2 + 2)) in
      length-update_parents levels parent (set nodes parent v) ∙ length-set nodes parent v

  -- The places from `b` on stay as they are.
  pub update_parents-leaf :
      (levels top b j : ℕ) (nodes : List Bytes)
      → 1 ≤ top
      → top * 2 ^ levels ≤ b
      → b ≤ length nodes
      → b / 2 < j
      → node (update_parents sha256 levels (b - 1) nodes) j ≡ node nodes j
  unfolding update_parents
  update_parents-leaf zero top b j nodes pos low fits beyond = refl
  update_parents-leaf (suc levels) top b j nodes pos low fits beyond =
      let low' : top * 2 ^ levels ≤ b / 2 = omega (arith, low, double_power top levels) in
      let up : top * 1 ≤ top * 2 ^ levels = mul-le-mul_left top (pow_pos levels) in
      let two : 2 ≤ b = omega (arith, pos, low', up) in
      let long : b / 2 ≤ length (updated nodes b) =
        rw
          (length-set nodes (b / 2 - 1)
            (hash_two sha256 (node nodes (2 * (b / 2))) (node nodes (2 * (b / 2) + 1))))
          (omega (arith, fits)) in
      rw (update_parents_step levels b nodes two) (
        update_parents-leaf levels top (b / 2) j (updated nodes b) pos low' long
          (omega (arith, beyond))
        ∙ node-updated nodes b j two fits (omega (arith, beyond)) (λ e. omega (arith, e, beyond)))
