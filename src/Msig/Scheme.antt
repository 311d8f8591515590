-- ===== src/Msig/Scheme.antt =====
-- lez/programs/msig/core/src/lib.rs: member leaves, vote nullifiers and the fixed-depth Merkle tree
-- of the members. SHA-256 is the zkVM's: a parameter.
use lp_0002_private_multisig.Prelude.{
  ℕ, zero, suc, ◌+◌, ◌-◌, ◌/◌, ◌%◌, Option, none, some, List, [], ◌∷◌, ◌++◌, ◌==◌, if◌then◌else◌,
  Bytes, codes, replicate, length, take, get_elem?, u32_mod,
}

-- `MerkleProof`: the leaf's index and the siblings, bottom up.
abbrev pub MerkleProof : Type 0
MerkleProof = ℕ × List Bytes

abbrev pub tree_depth : ℕ
tree_depth = 5

-- `1 << TREE_DEPTH`
abbrev pub tree_slots : ℕ
tree_slots = 32

abbrev pub empty_leaf : Bytes
empty_leaf = replicate 32 0

abbrev pub leaf_domain : Bytes
leaf_domain = codes "/lp0002/leaf/" ++ 0 ∷ []

abbrev pub null_domain : Bytes
null_domain = codes "/lp0002/null/" ++ 0 ∷ []

-- `PROPOSAL_HEADER_LEN`: member_root, proposal_id, approval_count
abbrev pub proposal_header_len : ℕ
proposal_header_len = 68

-- `REGISTRY_HEADER_LEN`: member_root, leaf_count
abbrev pub registry_header_len : ℕ
registry_header_len = 36

pub data MsigInstruction : Type 0 where
  create_proposal : (member_root proposal_id : Bytes) → MsigInstruction
  approve : (secret : Bytes) (merkle_path : MerkleProof) (proposal_id vpk : Bytes) → MsigInstruction
  enroll : (leaf : Bytes) → MsigInstruction
  init_treasury : (seed transfer_program_id : Bytes) → MsigInstruction
  execute : (threshold : ℕ) (seed : Bytes) → MsigInstruction

-- `Vec::resize`: pads with `v`, or cuts.
unfoldable pub resize {ℓ} : {A : Type ℓ} → ℕ → A → List A → List A
resize n v xs = take n (xs ++ replicate (n - length xs) v)

-- `idx ^ 1`
abbrev pub flip_low_bit : ℕ → ℕ
flip_low_bit idx = if idx % 2 == 0 then idx + 1 else idx - 1

module _ (sha256 : Bytes → Bytes) where
  -- Both arguments are `[u8; 32]`.
  unfoldable pub hash_pair : Bytes → Bytes → Bytes
  hash_pair left right = sha256 (left ++ right)

  unfoldable pub member_leaf : Bytes → Bytes
  member_leaf secret = sha256 (leaf_domain ++ secret)

  unfoldable pub vote_nullifier : Bytes → Bytes → Bytes
  vote_nullifier secret proposal_id = sha256 (null_domain ++ secret ++ proposal_id)

  -- `level.chunks(2).map(|c| hash_pair(&c[0], &c[1])).collect()`. A last chunk of one element would
  -- panic; a level has 2^k elements with k > 0, so there is none, and the clause is never reached.
  unfoldable pub next_level : List Bytes → List Bytes
  next_level [] = []
  next_level (a ∷ []) = []
  next_level (a ∷ b ∷ rest) = hash_pair a b ∷ next_level rest

  -- The loop of `merkle_root`, and `level[0]` after it (`none`: index out of range).
  unfoldable pub reduce_levels : ℕ → List Bytes → Option Bytes
  reduce_levels zero level = get_elem? level 0
  reduce_levels (suc rounds) level = reduce_levels rounds (next_level level)

  unfoldable pub merkle_root : List Bytes → Option Bytes
  unfolding reduce_levels resize next_level hash_pair
  merkle_root leaves = reduce_levels tree_depth (resize tree_slots empty_leaf leaves)

  -- The loop of `merkle_path`; `level[idx ^ 1]` panics out of range.
  unfoldable pub sibling_path : ℕ → List Bytes → ℕ → Option (List Bytes)
  sibling_path zero level idx = some []
  sibling_path (suc rounds) level idx = elim (get_elem? level (flip_low_bit idx)) [
    | none ↦ none
    | some sibling ↦ elim (sibling_path rounds (next_level level) (idx / 2)) [
      | none ↦ none
      | some path ↦ some (sibling ∷ path)
    ]
  ]

  unfoldable pub merkle_path : List Bytes → ℕ → Option MerkleProof
  unfolding sibling_path resize next_level hash_pair
  merkle_path leaves index =
      elim (sibling_path tree_depth (resize tree_slots empty_leaf leaves) index) [
        | none ↦ none
        | some path ↦ some (index % u32_mod, path)
      ]

  -- The loop of `root_from_path`.
  unfoldable pub fold_path : Bytes → ℕ → List Bytes → Bytes
  fold_path result idx [] = result
  fold_path result idx (sibling ∷ path) =
      fold_path (if idx % 2 == 0 then hash_pair result sibling else hash_pair sibling result)
        (idx / 2) path

  unfoldable pub root_from_path : Bytes → MerkleProof → Bytes
  unfolding fold_path hash_pair
  root_from_path leaf proof = fold_path leaf proof.0 proof.1
