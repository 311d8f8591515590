-- ===== src/MerkleTree.antt =====
-- lee/state_machine/src/merkle_tree/mod.rs: the append-only tree of the commitments, an array in heap
-- order. `usize` values stay far below 2^64. SHA-256 is a parameter. A capacity that is too
-- large for the table of default values panics in the source and is `none` here. An index out of range
-- would panic as well; here it reads an empty node and writes nothing.
mod DefaultValues
pub mod Ancestors
pub mod Updates
pub mod Leaves
pub mod Moves
pub mod Paths
pub mod Powers
pub mod Insertion
pub mod Growth
pub mod Doubling
pub mod Membership
unfoldable pub use DefaultValues.{default_values}
use lp_0002_private_multisig.Prelude.{
  ℕ, zero, suc, ◌+◌, ◌-◌, ◌*◌, ◌/◌, ◌%◌, ◌^◌, ◌++◌, true, false, Option, none, some, List, [], ◌∷◌,
  Bytes, leb, ◌==◌, if◌then◌else◌, length, get_elem?, replicate,
}

pub record MerkleTree : Type 0 where
  pub nodes : List Bytes
  pub capacity : ℕ
  pub length : ℕ

abbrev pub get_or : List Bytes → ℕ → Bytes
get_or xs i = elim (get_elem? xs i) [ none ↦ [] | some x ↦ x ]

abbrev pub set : List Bytes → ℕ → Bytes → List Bytes
set [] i v = []
set (x ∷ xs) zero v = v ∷ xs
set (x ∷ xs) (suc i) v = x ∷ set xs i v

-- `usize::next_power_of_two`: the doubling of `p` until it reaches `n`, in at most `n` rounds.
unfoldable pub double_until : ℕ → ℕ → ℕ → ℕ
double_until zero p n = p
double_until (suc rounds) p n = elim (leb n p) [ true ↦ p | false ↦ double_until rounds (p * 2) n ]

unfoldable pub next_power_of_two : ℕ → ℕ
unfolding double_until
next_power_of_two n = double_until n 1 n

-- `usize::trailing_zeros`; 64 at zero.
unfoldable pub count_zeros : ℕ → ℕ → ℕ
count_zeros zero n = 0
count_zeros (suc bits) n = elim (n % 2 == 0) [ true ↦ suc (count_zeros bits (n / 2)) | false ↦ 0 ]

unfoldable pub trailing_zeros : ℕ → ℕ
unfolding count_zeros
trailing_zeros = count_zeros 64

-- `prev_power_of_two`: the doubling of `p` while twice it is at most `x`.
unfoldable pub double_below : ℕ → ℕ → ℕ → ℕ
double_below zero p x = p
double_below (suc rounds) p x = elim (leb (p * 2) x) [
  | true ↦ double_below rounds (p * 2) x
  | false ↦ p
]

unfoldable pub prev_power_of_two : ℕ → ℕ
unfolding double_below
prev_power_of_two x = if x == 0 then 0 else double_below x 1 x

-- `with_capacity`: level `l` has 2^l nodes, all with the default value of their height. `depth` counts
-- the levels that are left.
unfoldable pub default_levels : ℕ → ℕ → List Bytes
unfolding default_values
default_levels zero level = replicate (2 ^ level) (get_or default_values 0)
default_levels (suc depth) level =
    replicate (2 ^ level) (get_or default_values (suc depth)) ++ default_levels depth (level + 1)

-- The tree of `with_capacity`, for a power of two and its exponent.
unfoldable pub empty_tree : (capacity total_depth : ℕ) → MerkleTree
unfolding default_levels
empty_tree capacity total_depth = record {
  nodes = default_levels total_depth 0;
  capacity = capacity;
  length = 0;
}

-- The slice `DEFAULT_VALUES[..=total_depth]` panics where the table has no entry at `total_depth`.
unfoldable pub with_capacity : ℕ → Option MerkleTree
unfolding next_power_of_two trailing_zeros empty_tree default_values
with_capacity requested =
    let cap' = next_power_of_two requested in
    let total_depth = trailing_zeros cap' in
    elim (leb (length default_values) total_depth) [
      | true ↦ none
      | false ↦ some (empty_tree cap' total_depth)
    ]

-- Number of levels required to hold all nodes.
unfoldable pub depth : MerkleTree → ℕ
unfolding next_power_of_two trailing_zeros
depth t = trailing_zeros (next_power_of_two t.length)

unfoldable pub root_index : MerkleTree → ℕ
unfolding depth
root_index t =
    let tree_depth = depth t in
    let capacity_depth = trailing_zeros t.capacity in
    if tree_depth == capacity_depth then 0 else 2 ^ (capacity_depth - tree_depth) - 1

unfoldable pub root : MerkleTree → Bytes
unfolding root_index
root t = get_or t.nodes (root_index t)

-- The loop of `reallocate_to_double_capacity`: node `index` moves to `index + prev_power_of_two(index + 1)`.
unfoldable pub copy_nodes : List Bytes → ℕ → List Bytes → List Bytes
unfolding prev_power_of_two
copy_nodes [] index target = target
copy_nodes (value ∷ values) index target =
    copy_nodes values (index + 1) (set target (index + prev_power_of_two (index + 1)) value)

-- The new tree with the nodes of the old one.
abbrev pub embedded : (old this : MerkleTree) → MerkleTree
embedded old this = record this { nodes = copy_nodes old.nodes 0 this.nodes; length = old.length }

unfoldable pub reallocate_to_double_capacity : MerkleTree → Option MerkleTree
unfolding with_capacity copy_nodes
reallocate_to_double_capacity t = elim (with_capacity (t.capacity * 2)) [
  | none ↦ none
  | some this ↦ some (embedded t this)
]

module _ (sha256 : Bytes → Bytes) where
  unfoldable pub hash_two : Bytes → Bytes → Bytes
  hash_two left right = sha256 (left ++ right)

  unfoldable pub hash_value : Bytes → Bytes
  hash_value value = sha256 value

  -- The loop that updates the levels above a new node.
  unfoldable pub update_parents : ℕ → ℕ → List Bytes → List Bytes
  unfolding hash_two
  update_parents zero node_index nodes = nodes
  update_parents (suc rounds) node_index nodes =
      let parent_index = (node_index - 1) / 2 in
      let node_hash =
        hash_two (get_or nodes (parent_index * 2 + 1)) (get_or nodes (parent_index * 2 + 2)) in
      update_parents rounds parent_index (set nodes parent_index node_hash)

  -- `insert` after its test for room.
  unfoldable pub insert_with_room : MerkleTree → Bytes → MerkleTree × ℕ
  unfolding update_parents hash_value depth
  insert_with_room t value =
      let new_index = t.length in
      let node_index = new_index + t.capacity - 1 in
      let longer : MerkleTree = record t {
        nodes = set t.nodes node_index (hash_value value);
        length = new_index + 1;
      } in
      (record longer { nodes = update_parents (depth longer) node_index longer.nodes }, new_index)

  -- `insert`: the new tree and the index of the value.
  unfoldable pub insert : MerkleTree → Bytes → Option (MerkleTree × ℕ)
  unfolding insert_with_room reallocate_to_double_capacity
  insert t value =
      elim (if t.length == t.capacity then reallocate_to_double_capacity t else some t) [
        | none ↦ none
        | some grown ↦ some (insert_with_room grown value)
      ]

-- The loop of `get_authentication_path_for`, on fuel: a node's index is at least halved in a round.
unfoldable pub climb_path : ℕ → List Bytes → ℕ → ℕ → List Bytes
climb_path zero nodes root_index node_index = []
climb_path (suc rounds) nodes root_index node_index = elim (node_index == root_index) [
  | true ↦ []
  | false ↦
      (let sibling_index = if node_index % 2 == 1 then node_index + 1 else node_index - 1 in
        get_or nodes sibling_index ∷ climb_path rounds nodes root_index ((node_index - 1) / 2))
]

unfoldable pub get_authentication_path_for : MerkleTree → ℕ → Option (List Bytes)
unfolding climb_path root_index
get_authentication_path_for t index =
    if leb t.length index
    then none
    else some (climb_path (t.capacity + index) t.nodes (root_index t) (t.capacity + index - 1))
