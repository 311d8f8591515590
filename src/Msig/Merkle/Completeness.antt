-- ===== src/Msig/Merkle/Completeness.antt =====
-- A path that `merkle_path` returns leads to the root that `merkle_root` returns.
use native.Mathlib.Nat.{pow-suc}
use lp_0002_private_multisig.Prelude.{
  ℕ, zero, suc, ◌-◌, ◌*◌, ◌/◌, ◌%◌, ◌^◌, ◌≡◌, refl, ap, sym, ◌∙◌, inl, inr, Bytes, some, List, [],
  ◌∷◌, ◌++◌, length, get_elem?, get_elem?-some, replicate, length-take, length-append,
  length-replicate, u32_mod, arith, if◌then◌else◌, ◌==◌,
}
use lp_0002_private_multisig.Msig.Scheme.{
  hash_pair, next_level, reduce_levels, sibling_path, fold_path, merkle_root, merkle_path,
  root_from_path, resize, tree_depth, tree_slots, empty_leaf, flip_low_bit,
}
use lp_0002_private_multisig.Msig.Merkle.Levels.{
  double, double-eq, left_or_right, get_elem?_lt, length-next_level, get_elem?-next_level,
}

pub length-resize {ℓ} : {A : Type ℓ} (n : ℕ) (v : A) (xs : List A) → length (resize n v xs) ≡ n
unfolding resize
length-resize n v xs = omega (
  arith,
  length-take n (xs ++ replicate (n - length xs) v),
  length-append xs (replicate (n - length xs) v),
  length-replicate (n - length xs) v,
)

module _ (sha256 : Bytes → Bytes) where
  -- A leaf of a level of 2^d nodes, its path and the root of the level.
  pub record Leads (d : ℕ) (level : List Bytes) (idx : ℕ) (leaf : Bytes) : Type 0 where
    pub path : List Bytes
    pub root : Bytes
    pub path_eq : sibling_path sha256 d level idx ≡ some path
    pub root_eq : reduce_levels sha256 d level ≡ some root
    pub fold_eq : fold_path sha256 leaf idx path ≡ root
    pub depth_eq : length path ≡ d

  -- What the round at `idx` meets: a sibling, and the node above, which is the hash of the two.
  abbrev Climbs : List Bytes → ℕ → Bytes → Type 0
  Climbs level idx leaf =
      (s h : Bytes) × (get_elem? level (flip_low_bit idx) ≡ some s)
      × (get_elem? (next_level sha256 level) (idx / 2) ≡ some h)
      × ((if idx % 2 == 0 then hash_pair sha256 leaf s else hash_pair sha256 s leaf) ≡ h)

  flip_left : (idx k : ℕ) → idx ≡ double k → flip_low_bit idx ≡ suc (double k)
  flip_left idx k e = ground (arith, double-eq k)

  flip_right : (idx k : ℕ) → idx ≡ suc (double k) → flip_low_bit idx ≡ double k
  flip_right idx k e = ground (arith, double-eq k)

  climb_left :
      (level : List Bytes) (idx k : ℕ) (leaf s : Bytes)
      → idx ≡ double k
      → get_elem? level (double k) ≡ some leaf
      → get_elem? level (suc (double k)) ≡ some s
      → Climbs level idx leaf
  climb_left level idx k leaf s e at found =
      let half : idx / 2 ≡ k = omega (arith, double-eq k) in
      (
        s,
        hash_pair sha256 leaf s,
        rw (flip_left idx k e) found,
        rw half (get_elem?-next_level sha256 level k at found),
        ground (arith, double-eq k),
      )

  climb_right :
      (level : List Bytes) (idx k : ℕ) (leaf s : Bytes)
      → idx ≡ suc (double k)
      → get_elem? level (double k) ≡ some s
      → get_elem? level (suc (double k)) ≡ some leaf
      → Climbs level idx leaf
  climb_right level idx k leaf s e found at =
      let half : idx / 2 ≡ k = omega (arith, double-eq k) in
      (
        s,
        hash_pair sha256 s leaf,
        rw (flip_right idx k e) found,
        rw half (get_elem?-next_level sha256 level k found at),
        ground (arith, double-eq k),
      )

  climb :
      (m : ℕ) (level : List Bytes) (idx : ℕ) (leaf : Bytes)
      → length level ≡ 2 * m
      → get_elem? level idx ≡ some leaf
      → Climbs level idx leaf
  climb m level idx leaf len at = elim (left_or_right idx) [
    | inl (e, r) ↦
        let (s, found) =
          get_elem?-some level (suc (double (idx / 2)))
            (omega (arith, get_elem?_lt level idx at, double-eq (idx / 2))) in
        climb_left level idx (idx / 2) leaf s e (ap (get_elem? level) (sym e) ∙ at) found
    | inr (e, r) ↦
        let (s, found) =
          get_elem?-some level (double (idx / 2)) (omega (arith, get_elem?_lt level idx at)) in
        climb_right level idx (idx / 2) leaf s e found (ap (get_elem? level) (sym e) ∙ at)
  ]

  Leads-zero :
      (level : List Bytes) (idx : ℕ) (leaf : Bytes)
      → length level ≡ 1
      → get_elem? level idx ≡ some leaf
      → Leads zero level idx leaf
  unfolding sibling_path reduce_levels fold_path
  Leads-zero [] idx leaf len at = cc
  Leads-zero (a ∷ []) zero leaf len at = record {
    path = [];
    root = leaf;
    path_eq = refl;
    root_eq = at;
    fold_eq = refl;
    depth_eq = refl;
  }
  Leads-zero (a ∷ []) (suc i) leaf len at = cc
  Leads-zero (a ∷ b ∷ l) idx leaf len at = absurd (omega arith)

  Leads-suc :
      (d : ℕ) (level : List Bytes) (idx : ℕ) (leaf : Bytes) (c : Climbs level idx leaf)
      → Leads d (next_level sha256 level) (idx / 2) c.1
      → Leads (suc d) level idx leaf
  unfolding sibling_path reduce_levels fold_path
  Leads-suc d level idx leaf (s, h, found, above, step) l = record {
    path = s ∷ l.path;
    root = l.root;
    path_eq = ground (arith, found, l.path_eq);
    root_eq = l.root_eq;
    fold_eq = rw step l.fold_eq;
    depth_eq = ap suc l.depth_eq;
  }

  pub path-Leads :
      (d : ℕ) (level : List Bytes) (idx : ℕ) (leaf : Bytes)
      → length level ≡ 2 ^ d
      → get_elem? level idx ≡ some leaf
      → Leads d level idx leaf
  path-Leads zero level idx leaf len at = Leads-zero level idx leaf (len ∙ refl) at
  path-Leads (suc d) level idx leaf len at =
      let len2 : length level ≡ 2 * 2 ^ d = omega (arith, pow-suc 2 d) in
      let c : Climbs level idx leaf = climb (2 ^ d) level idx leaf len2 at in
      Leads-suc d level idx leaf c (
        path-Leads d (next_level sha256 level) (idx / 2) c.1
          (length-next_level sha256 (2 ^ d) level len2) c.3)

  -- The whole tree: some root, and for every slot some path that leads to it.
  pub merkle_root-some : (leaves : List Bytes) → (r : Bytes) × (merkle_root sha256 leaves ≡ some r)
  unfolding merkle_root
  merkle_root-some leaves =
      let slots = resize tree_slots empty_leaf leaves in
      let len : length slots ≡ 32 = length-resize tree_slots empty_leaf leaves in
      let (leaf, at) = get_elem?-some slots 0 (omega arith) in
      let l = path-Leads tree_depth slots 0 leaf len at in (l.root, l.root_eq)

  -- For a leaf in slot `index` of the padded tree, `merkle_path` returns a proof with that index and
  -- `TREE_DEPTH` siblings, and `root_from_path` of the leaf and the proof is the tree's root.
  pub root_from_path-merkle_path :
      (leaves : List Bytes) (index : ℕ) (leaf : Bytes)
      → get_elem? (resize tree_slots empty_leaf leaves) index ≡ some leaf
      → (path : List Bytes) × (merkle_path sha256 leaves index ≡ some (index, path))
        × (length path ≡ tree_depth)
        × (merkle_root sha256 leaves ≡ some (root_from_path sha256 leaf (index, path)))
  unfolding merkle_path merkle_root root_from_path
  root_from_path-merkle_path leaves index leaf at =
      let slots = resize tree_slots empty_leaf leaves in
      let len : length slots ≡ 32 = length-resize tree_slots empty_leaf leaves in
      let l = path-Leads tree_depth slots index leaf len at in
      let small : index % u32_mod ≡ index = omega (arith, get_elem?_lt slots index at) in
      (l.path, ground (arith, l.path_eq, small), l.depth_eq, l.root_eq ∙ ap some (sym l.fold_eq))
