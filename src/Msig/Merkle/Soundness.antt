-- ===== src/Msig/Merkle/Soundness.antt =====
-- What a path that leads to the root says of its leaf, with no assumption that SHA-256 is injective:
-- either the leaf stands in the tree, or the proof gives two inputs with one digest.
use native.Mathlib.Nat.{pow-suc, div-add-mod, mod-lt, mod-eq_of_lt, add-mul-mod_self_left}
use lp_0002_private_multisig.Prelude.{
  ℕ, zero, suc, ◌+◌, ◌-◌, ◌*◌, ◌/◌, ◌%◌, ◌<◌, ◌^◌, ◌≡◌, ◌≢◌, refl, ap, sym, ◌∙◌, ◌⊎◌, inl, inr,
  Bytes, bytes_eq, bytes_eq_iff, Bool-cases, some, List, [], ◌∷◌, ◌++◌, length, get_elem?,
  append_inj, All, All-append, take, replicate, arith, if◌then◌else◌, ◌==◌,
}
use lp_0002_private_multisig.Msig.Scheme.{
  hash_pair, next_level, reduce_levels, fold_path, merkle_root, root_from_path, resize, tree_depth,
  tree_slots, empty_leaf,
}
use lp_0002_private_multisig.Msig.Merkle.Completeness.{length-resize}
use lp_0002_private_multisig.Msig.Merkle.Levels.{
  double, double-eq, left_or_right, length-next_level, next_level_children,
}

-- A `[u8; 32]`.
abbrev pub IsDigest : Bytes → Type 0
IsDigest b = length b ≡ 32

mod-one : (n : ℕ) → n % 2 ^ 0 ≡ 0
mod-one n = omega arith

pow-pos : (d : ℕ) → 0 < 2 ^ d
pow-pos zero = omega arith
pow-pos (suc d) = omega (arith, pow-suc 2 d, pow-pos d)

-- The low bit and the bits above it.
mod-split : (d idx : ℕ) → idx % 2 ^ suc d ≡ 2 * ((idx / 2) % 2 ^ d) + idx % 2
mod-split d idx =
    let h : ℕ = idx / 2 in
    let q : ℕ = h / 2 ^ d in
    let low : ℕ = 2 * (h % 2 ^ d) + idx % 2 in
    let parts : idx ≡ low + 2 ^ suc d * q =
      omega (arith, div-add-mod h (2 ^ d), ap (λ (t : ℕ). t * q) (pow-suc 2 d)) in
    let small : low < 2 ^ suc d = omega (arith, pow-suc 2 d, mod-lt h (pow-pos d)) in
    ap (λ (t : ℕ). t % 2 ^ suc d) parts
    ∙ add-mul-mod_self_left low (2 ^ suc d) q
    ∙ mod-eq_of_lt small

module _ (sha256 : Bytes → Bytes) where
  -- Two different inputs with one digest.
  pub Collision : Type 0
  Collision = (x y : Bytes) × (x ≢ y) × (sha256 x ≡ sha256 y)

  pub inputs_eq_or_collision : (x y : Bytes) → sha256 x ≡ sha256 y → (x ≡ y) ⊎ Collision
  unfolding Collision
  inputs_eq_or_collision x y h = elim (Bool-cases (bytes_eq x y)) [
    | inl same ↦ inl ((bytes_eq_iff x y).0 same)
    | inr differ ↦ inr (x, y, λ e. cc (differ, (bytes_eq_iff x y).1 e), h)
  ]

  -- Equal hashes of two pairs come from equal pairs.
  pub hash_pair_inj :
      (a b c d : Bytes)
      → length a ≡ length c
      → hash_pair sha256 a b ≡ hash_pair sha256 c d
      → ((a ≡ c) × (b ≡ d)) ⊎ Collision
  unfolding hash_pair
  hash_pair_inj a b c d len h = elim (inputs_eq_or_collision (a ++ b) (c ++ d) h) [
    | inl e ↦ inl (append_inj a b c d len e)
    | inr found ↦ inr found
  ]

  module _ (digest_len : (b : Bytes) → length (sha256 b) ≡ 32) where
    All-next_level : (level : List Bytes) → All IsDigest (next_level sha256 level)
    unfolding next_level hash_pair
    All-next_level [] = tt
    All-next_level (a ∷ []) = tt
    All-next_level (a ∷ b ∷ rest) = (digest_len (a ++ b), All-next_level rest)

    All-get_elem? :
        (xs : List Bytes) (i : ℕ) {a : Bytes}
        → All IsDigest xs
        → get_elem? xs i ≡ some a
        → IsDigest a
    All-get_elem? [] i h e = cc
    All-get_elem? (x ∷ xs) zero h e = ground arith
    All-get_elem? (x ∷ xs) (suc i) h e = All-get_elem? xs i h.1 e

    -- One round down: the node above is the hash of `leaf` and its sibling, so `leaf` is the child.
    descend :
        (level : List Bytes) (idx k : ℕ) (leaf s : Bytes)
        → All IsDigest level
        → IsDigest leaf
        → IsDigest s
        → get_elem? (next_level sha256 level) k
          ≡ some (if idx % 2 == 0 then hash_pair sha256 leaf s else hash_pair sha256 s leaf)
        → (get_elem? level (2 * k + idx % 2) ≡ some leaf) ⊎ Collision
    descend level idx k leaf s all leaf_len s_len at =
        let (a, b, left, right, e) = next_level_children sha256 level k at in
        elim (left_or_right idx) [
          | inl (_, even) ↦
              elim (hash_pair_inj leaf s a b
                (leaf_len ∙ sym (All-get_elem? level (double k) all left))
                (ground (arith, e, even))) [
                  | inl same ↦
                      inl (child (double k) leaf a left same.0 (omega (arith, double-eq k)))
                  | inr found ↦ inr found
                ]
          | inr (_, odd) ↦
              elim (hash_pair_inj s leaf a b (s_len ∙ sym (All-get_elem? level (double k) all left))
                (ground (arith, e, odd))) [
                  | inl same ↦
                      inl (child (suc (double k)) leaf b right same.1 (omega (arith, double-eq k)))
                  | inr found ↦ inr found
                ]
        ]
      where
        child :
            (i : ℕ) (x y : Bytes)
            → get_elem? level i ≡ some y
            → x ≡ y
            → i ≡ 2 * k + idx % 2
            → get_elem? level (2 * k + idx % 2) ≡ some x
        child i x y g same place = ap (get_elem? level) (sym place) ∙ g ∙ ap some (sym same)

    IsDigest-up :
        (idx : ℕ) (leaf s : Bytes)
        → IsDigest (if idx % 2 == 0 then hash_pair sha256 leaf s else hash_pair sha256 s leaf)
    unfolding hash_pair
    IsDigest-up idx leaf s = ground (arith, digest_len (leaf ++ s), digest_len (s ++ leaf))

    -- `2 ^ d` nodes, a path of `d` siblings that leads to the root: the leaf stands at `idx % 2^d`.
    pub fold_path_sound :
        (d : ℕ) (level : List Bytes) (idx : ℕ) (leaf : Bytes) (path : List Bytes)
        → length level ≡ 2 ^ d
        → length path ≡ d
        → All IsDigest level
        → All IsDigest path
        → IsDigest leaf
        → reduce_levels sha256 d level ≡ some (fold_path sha256 leaf idx path)
        → (get_elem? level (idx % 2 ^ d) ≡ some leaf) ⊎ Collision
    unfolding reduce_levels fold_path
    fold_path_sound zero level idx leaf [] len depth all all_path leaf_len e =
        inl (ap (get_elem? level) (mod-one idx) ∙ e)
    fold_path_sound zero level idx leaf (s ∷ path) len depth all all_path leaf_len e = cc
    fold_path_sound (suc d) level idx leaf [] len depth all all_path leaf_len e = cc
    fold_path_sound (suc d) level idx leaf (s ∷ path) len depth all all_path leaf_len e =
        let up = if idx % 2 == 0 then hash_pair sha256 leaf s else hash_pair sha256 s leaf in
        elim (fold_path_sound d (next_level sha256 level) (idx / 2) up path
          (length-next_level sha256 (2 ^ d) level (omega (arith, pow-suc 2 d))) (omega arith)
          (All-next_level level) all_path.1 (IsDigest-up idx leaf s) e) [
            | inl above ↦
                elim (descend level idx ((idx / 2) % 2 ^ d) leaf s all leaf_len all_path.0 above) [
                  | inl at ↦ inl (ap (get_elem? level) (mod-split d idx) ∙ at)
                  | inr found ↦ inr found
                ]
            | inr found ↦ inr found
          ]

    All-replicate : (n : ℕ) → All IsDigest (replicate n empty_leaf)
    All-replicate zero = tt
    All-replicate (suc n) = (refl, All-replicate n)

    All-take : (n : ℕ) (xs : List Bytes) → All IsDigest xs → All IsDigest (take n xs)
    All-take zero xs h = tt
    All-take (suc n) [] h = tt
    All-take (suc n) (x ∷ xs) h = (h.0, All-take n xs h.1)

    All-slots :
        (leaves : List Bytes)
        → All IsDigest leaves
        → All IsDigest (resize tree_slots empty_leaf leaves)
    unfolding resize
    All-slots leaves h =
        All-take tree_slots (leaves ++ replicate (tree_slots - length leaves) empty_leaf) (
          All-append IsDigest leaves (replicate (tree_slots - length leaves) empty_leaf) h
            (All-replicate (tree_slots - length leaves)))

    -- If `root_from_path` of a leaf and a proof of `TREE_DEPTH` siblings is the root of `leaves`, then
    -- the leaf stands in the slot that the proof's index names modulo 32, or SHA-256 has a collision.
    -- Leaves and siblings are 32 bytes long, and so is every digest.
    pub root_from_path_sound :
        (leaves : List Bytes) (leaf : Bytes) (index : ℕ) (path : List Bytes)
        → All IsDigest leaves
        → All IsDigest path
        → IsDigest leaf
        → length path ≡ tree_depth
        → merkle_root sha256 leaves ≡ some (root_from_path sha256 leaf (index, path))
        → (get_elem? (resize tree_slots empty_leaf leaves) (index % 32) ≡ some leaf) ⊎ Collision
    unfolding merkle_root root_from_path
    root_from_path_sound leaves leaf index path all all_path leaf_len depth e =
        fold_path_sound tree_depth (resize tree_slots empty_leaf leaves) index leaf path
          (length-resize tree_slots empty_leaf leaves) depth (All-slots leaves all) all_path
          leaf_len e
