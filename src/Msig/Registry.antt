-- ===== src/Msig/Registry.antt =====
-- The MembersRegistry account: an append-only list of leaves behind the root of its first 32.
use lp_0002_private_multisig.Prelude.{
  ◌+◌, ◌-◌, ◌*◌, ◌%◌, ◌≤◌, ◌≡◌, refl, ap, sym, ◌∙◌, Bytes, bytes_eq, some, List, [], ◌∷◌, ◌++◌,
  length, length-append, take, take-append_le, replicate, u32_to_le_bytes, length-u32_to_le_bytes,
  u32_mod, All, arith, ok, ◌>>◌, ensure, leb, if◌then◌else◌,
}
use lp_0002_private_multisig.Core.Account.{
  Account, AccountWithMetadata, default_program_id, data_max_length, try_into_data,
}
use lp_0002_private_multisig.Core.Program.{
  AccountPostState, authorized, new_post_state, new_claimed,
}
use lp_0002_private_multisig.Msig.Scheme.{
  tree_slots, empty_leaf, resize, merkle_root, reduce_levels, tree_depth,
}
use lp_0002_private_multisig.Msig.Guest.{data_too_big, extend_all, registry_leaves, enroll_post}
use lp_0002_private_multisig.Msig.Layout.{read_entries-extend_all, length-extend_all, u32_at}
use lp_0002_private_multisig.Msig.Merkle.Soundness.{IsDigest}

-- member_root, leaf_count, the leaves.
unfoldable pub encode_registry : Bytes → List Bytes → Bytes
encode_registry root leaves = root ++ u32_to_le_bytes (length leaves) ++ extend_all leaves

pub record IsRegistry (root : Bytes) (leaves : List Bytes) : Type 0 where
  pub root_len : IsDigest root
  pub entry_len : All IsDigest leaves
  pub fits : length (encode_registry root leaves) ≤ data_max_length

module _ {root : Bytes} {leaves : List Bytes} (r : IsRegistry root leaves) where
  length-encode_registry : length (encode_registry root leaves) ≡ 36 + 32 * length leaves
  unfolding encode_registry
  length-encode_registry = omega (
    arith,
    length-append (root ++ u32_to_le_bytes (length leaves)) (extend_all leaves),
    length-append root (u32_to_le_bytes (length leaves)),
    length-u32_to_le_bytes (length leaves),
    length-extend_all leaves r.entry_len,
    r.root_len,
  )

  header_len : length (root ++ u32_to_le_bytes (length leaves)) ≡ 36
  header_len = omega (
    arith,
    length-append root (u32_to_le_bytes (length leaves)),
    length-u32_to_le_bytes (length leaves),
    r.root_len,
  )

  -- At most 3198 leaves fit.
  pub leaf_bound : length leaves ≤ 3198
  leaf_bound = omega (arith, length-encode_registry, r.fits)

  length_fact :
      length (root ++ u32_to_le_bytes (length leaves) ++ extend_all leaves)
      ≡ 36 + 32 * length leaves
  length_fact = unfold encode_registry in length-encode_registry

  -- The guest reads back exactly the leaves that were stored.
  pub registry_leaves-encode : registry_leaves (encode_registry root leaves) ≡ ok leaves
  unfolding registry_leaves encode_registry
  registry_leaves-encode =
      let count =
        u32_at 32 root (extend_all leaves) (length leaves) r.root_len (omega (arith, leaf_bound)) in
      let entries =
        read_entries-extend_all (root ++ u32_to_le_bytes (length leaves)) 36 leaves header_len
          r.entry_len in
      rw (count, entries) (ground (arith, length_fact))

  new_bytes :
      (leaf new_root : Bytes)
      → new_root
          ++ u32_to_le_bytes (length (leaves ++ leaf ∷ []) % u32_mod)
          ++ extend_all (leaves ++ leaf ∷ [])
        ≡ encode_registry new_root (leaves ++ leaf ∷ [])
  unfolding encode_registry
  new_bytes leaf new_root =
      let small : length (leaves ++ leaf ∷ []) % u32_mod ≡ length (leaves ++ leaf ∷ []) =
        omega (arith, leaf_bound, length-append leaves (leaf ∷ [])) in
      rw small refl

-- A list of 32 leaves or more is cut to its first 32.
resize_all :
    (leaves : List Bytes)
    → 32 ≤ length leaves
    → resize tree_slots empty_leaf leaves ≡ take 32 leaves
unfolding resize
resize_all leaves h = take-append_le 32 leaves (replicate (32 - length leaves) empty_leaf) h

resize_long :
    (leaves more : List Bytes)
    → 32 ≤ length leaves
    → resize tree_slots empty_leaf (leaves ++ more) ≡ take 32 leaves
resize_long leaves more h =
    resize_all (leaves ++ more) (omega (arith, length-append leaves more))
    ∙ take-append_le 32 leaves more h

-- The registry account with the data `b`.
abbrev pub with_data : AccountWithMetadata → Bytes → AccountWithMetadata
with_data a b = record a { account = record a.account { data_bytes = b } }

-- A registry that is still owned by the default program is claimed.
abbrev pub registry_post : AccountWithMetadata → Account → AccountPostState
registry_post registry account =
    if bytes_eq registry.account.program_owner default_program_id
    then new_claimed account authorized
    else new_post_state account

module _ (sha256 : Bytes → Bytes) where
  -- `enroll` on a stored registry appends the leaf and stores the root of all leaves; it panics only
  -- if the result does not fit into the account. An account that no program owns is claimed.
  pub enroll_post-encode :
      {root : Bytes} {leaves : List Bytes} (r : IsRegistry root leaves) (a : AccountWithMetadata)
      (leaf new_root : Bytes)
      → merkle_root sha256 (leaves ++ leaf ∷ []) ≡ some new_root
      → enroll_post sha256 (with_data a (encode_registry root leaves)) leaf ≡ (
          ensure
            (leb (length (encode_registry new_root (leaves ++ leaf ∷ []))) data_max_length)
            data_too_big
          >> ok (
              registry_post a (with_data a (encode_registry new_root (leaves ++ leaf ∷ []))).account
              ∷ []))
  unfolding enroll_post try_into_data
  enroll_post-encode {root} {leaves} r a leaf new_root e =
      rw (registry_leaves-encode r, e) (ground (arith, new_bytes r leaf new_root))

  -- Leaves after the 32nd are stored and counted, and change nothing in the root.
  pub merkle_root-late_leaf :
      (leaves : List Bytes) (leaf : Bytes)
      → 32 ≤ length leaves
      → merkle_root sha256 (leaves ++ leaf ∷ []) ≡ merkle_root sha256 leaves
  unfolding merkle_root
  merkle_root-late_leaf leaves leaf h =
      ap (reduce_levels sha256 tree_depth)
        (resize_long leaves (leaf ∷ []) h ∙ sym (resize_all leaves h))
