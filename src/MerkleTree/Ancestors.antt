-- ===== src/MerkleTree/Ancestors.antt =====
-- The nodes above a leaf, and what an insertion does to them. A node's place is its index and one: the
-- children of place `m` are 2 * m and 2 * m + 1, and the parent of `b` is b / 2.
use native.Mathlib.Nat.{mul-le-mul_left, pow-suc}
use lp_0002_private_multisig.Prelude.{
  ℕ, zero, suc, ◌+◌, ◌-◌, ◌*◌, ◌/◌, ◌^◌, ◌≤◌, ◌<◌, ◌≡◌, ◌⊎◌, refl, ap, inl, inr, List, [], ◌∷◌,
  Bytes, ◌==◌, if◌then◌else◌, length, arith,
}
use lp_0002_private_multisig.MerkleTree.{get_or, set, hash_two}

pub length-set : (xs : List Bytes) (i : ℕ) (v : Bytes) → length (set xs i v) ≡ length xs
length-set [] i v = refl
length-set (x ∷ xs) zero v = refl
length-set (x ∷ xs) (suc i) v = ap suc (length-set xs i v)

pub get_or-set :
    (xs : List Bytes) (i j : ℕ) (v : Bytes)
    → i < length xs
    → get_or (set xs i v) j ≡ (if i == j then v else get_or xs j)
get_or-set [] i j v h = absurd (omega (arith, h))
get_or-set (x ∷ xs) zero zero v h = refl
get_or-set (x ∷ xs) zero (suc j) v h = ground arith
get_or-set (x ∷ xs) (suc i) zero v h = ground arith
get_or-set (x ∷ xs) (suc i) (suc j) v h = ground (arith, get_or-set xs i j v (omega (arith, h)))

abbrev pub node : List Bytes → ℕ → Bytes
node nodes b = get_or nodes (b - 1)

-- A place strictly above `b`, by at most so many levels.
abbrev pub IsAbove : (levels : ℕ) → (b m : ℕ) → Type 0
IsAbove zero b m = ⊥
IsAbove (suc levels) b m = (m ≡ b / 2) ⊎ IsAbove levels (b / 2) m

pub pow_pos : (n : ℕ) → 1 ≤ 2 ^ n
pow_pos zero = omega arith
pow_pos (suc n) = omega (arith, pow_pos n)

pub double_power : (t n : ℕ) → t * 2 ^ suc n ≡ t * 2 ^ n * 2
double_power t n = rw (pow-suc 2 n) (omega arith)

-- The places above one of the places `top * 2 ^ levels + i` are not below `top`.
pub top_le : (levels top b m : ℕ) → top * 2 ^ levels ≤ b → IsAbove levels b m → top ≤ m
top_le zero top b m h above = elim above [ ]
top_le (suc levels) top b m h (inl e) =
    let up : top * 1 ≤ top * 2 ^ levels = mul-le-mul_left top (pow_pos levels) in
    let double : top * 2 ^ levels * 2 ≤ b = rw (double_power top levels) at h in
    rw e (omega (arith, up, double))
top_le (suc levels) top b m h (inr more) =
    top_le levels top (b / 2) m (omega (arith, double_power top levels, h)) more

pub above_le : (levels b m : ℕ) → IsAbove levels b m → m ≤ b / 2
above_le zero b m h = elim h [ ]
above_le (suc levels) b m (inl e) = omega (arith, e)
above_le (suc levels) b m (inr more) = omega (arith, above_le levels (b / 2) m more)

-- The highest of the places above is the top.
pub top-IsAbove :
    (levels top i : ℕ) → i < 2 ^ suc levels → IsAbove (suc levels) (top * 2 ^ suc levels + i) top
top-IsAbove zero top i h = inl (omega (arith, h))
top-IsAbove (suc levels) top i h =
    let half : (top * 2 ^ suc (suc levels) + i) / 2 ≡ top * 2 ^ suc levels + i / 2 =
      omega (arith, double_power top (suc levels)) in
    let small : i / 2 < 2 ^ suc levels = omega (arith, h, double_power 1 (suc levels)) in
    inr (rw half (top-IsAbove levels top (i / 2) small))

-- One level more has only the top beside the places before.
pub IsAbove-split :
    (levels top i m : ℕ)
    → i < 2 ^ suc levels
    → IsAbove (suc levels) (top * 2 ^ suc levels + i) m
    → (m ≡ top) ⊎ IsAbove levels (top * 2 ^ suc levels + i) m
IsAbove-split zero top i m h (inl e) = inl (omega (arith, e, h))
IsAbove-split zero top i m h (inr none) = elim none [ ]
IsAbove-split (suc levels) top i m h (inl e) = inr (inl e)
IsAbove-split (suc levels) top i m h (inr more) =
    let half : (top * 2 ^ suc (suc levels) + i) / 2 ≡ top * 2 ^ suc levels + i / 2 =
      omega (arith, double_power top (suc levels)) in
    let small : i / 2 < 2 ^ suc levels = omega (arith, h, double_power 1 (suc levels)) in
    elim (IsAbove-split levels top (i / 2) m small (rw half at more)) [
      | inl e ↦ inl e
      | inr lower ↦ inr (inr (rw half lower))
    ]

module _ (sha256 : Bytes → Bytes) where
  -- The node at a place is the hash of its children.
  abbrev pub IsHashed : List Bytes → ℕ → Type 0
  IsHashed nodes m = node nodes m ≡ hash_two sha256 (node nodes (2 * m)) (node nodes (2 * m + 1))

  pub IsHashed-at :
      (nodes changed : List Bytes) (m : ℕ)
      → node changed m ≡ node nodes m
      → node changed (2 * m) ≡ node nodes (2 * m)
      → node changed (2 * m + 1) ≡ node nodes (2 * m + 1)
      → IsHashed nodes m
      → IsHashed changed m
  IsHashed-at nodes changed m e e0 e1 h = rw (e, e0, e1) h
