-- ===== src/MerkleTree/Growth.antt =====
-- An empty tree, and the doubling of a full one: where its nodes go.
use mathlib.Core.Path.{subst}
use native.Mathlib.Nat.{pow-le-pow_right}
use lp_0002_private_multisig.Prelude.{
  ℕ, zero, suc, ◌+◌, ◌*◌, ◌^◌, ◌≤◌, ◌<◌, ◌≡◌, refl, inl, inr, ap, sym, false, some, [], Bytes, ◌==◌,
  leb, Bool-cases, length, length-append, length-replicate, replicate, arith,
}
use lp_0002_private_multisig.MerkleTree.{
  MerkleTree, default_values, get_or, default_levels, empty_tree, with_capacity, next_power_of_two,
  trailing_zeros, double_below, prev_power_of_two,
}
use lp_0002_private_multisig.MerkleTree.Ancestors.{pow_pos}
use lp_0002_private_multisig.MerkleTree.Powers.{
  IsCeil, ceil_unique, ceil_le, exponent_lt, next_power_of_two-IsCeil, trailing_zeros-power,
  power_suc, below_power,
}
use lp_0002_private_multisig.MerkleTree.Insertion.{IsTree}

length-default_levels :
    (depth level : ℕ) → length (default_levels depth level) + 2 ^ level ≡ 2 * 2 ^ (level + depth)
unfolding default_levels
length-default_levels zero level =
    let shift : level + 0 ≡ level = omega arith in
    rw shift (omega (arith, length-replicate (2 ^ level) (get_or default_values 0)))
length-default_levels (suc depth) level =
    let shift : level + suc depth ≡ level + 1 + depth = omega arith in
    let one : level + 1 ≡ suc level = omega arith in
    let rest = length-default_levels depth (level + 1) in
    let power : 2 ^ (level + 1) ≡ 2 ^ level * 2 = rw one (power_suc level) in
    let first = replicate (2 ^ level) (get_or default_values (suc depth)) in
    rw shift (
      omega (
        arith,
        length-append first (default_levels depth (level + 1)),
        rest,
        power,
        length-replicate (2 ^ level) (get_or default_values (suc depth)),
      ))

-- The size of a new tree.
pub record Sized (t : MerkleTree) (height : ℕ) : Type 0 where
  pub capacity : t.capacity ≡ 2 ^ height
  pub nodes : length t.nodes + 1 ≡ 2 * 2 ^ height

length-default_values : length default_values ≡ 32
unfolding default_values
length-default_values = refl

-- A tree that is built has at most 2^31 places.
with_capacity_inv :
    (requested : ℕ) {t : MerkleTree}
    → with_capacity requested ≡ some t
    → (trailing_zeros (next_power_of_two requested) < 32)
      × (empty_tree (next_power_of_two requested) (trailing_zeros (next_power_of_two requested))
          ≡ t)
unfolding with_capacity
with_capacity_inv requested h = (ground (arith, h, length-default_values), ground (arith, h))

empty_tree-Sized : (d : ℕ) → Sized (empty_tree (2 ^ d) d) d
unfolding empty_tree
empty_tree-Sized d =
    let shift : 0 + d ≡ d = omega arith in
    record { capacity = refl; nodes = rw shift at (length-default_levels d 0) }

pub with_capacity-Sized :
    (requested d : ℕ) {t : MerkleTree}
    → requested ≤ 2 ^ 62
    → IsCeil requested d
    → with_capacity requested ≡ some t
    → Sized t d × (t.length ≡ 0) × (t.capacity ≤ 2 ^ 31)
unfolding empty_tree
with_capacity-Sized requested d {t} small ceil h =
    let (e, same, other) = next_power_of_two-IsCeil requested in
    let equal : e ≡ d = ceil_unique requested e d other ceil in
    let bound = ceil_le requested d 62 ceil small in
    let power : next_power_of_two requested ≡ 2 ^ d = rw equal at same in
    let zeros : trailing_zeros (next_power_of_two requested) ≡ d =
      rw (same, equal) (trailing_zeros-power d (omega (arith, bound))) in
    let (low, built) = with_capacity_inv requested h in
    let is : empty_tree (2 ^ d) d ≡ t = rw (zeros, power) at built in
    let shallow : d ≤ 31 = omega (arith, low, zeros) in
    let below : 2 ^ d ≤ 2 ^ 31 = pow-le-pow_right (omega arith) shallow in
    (
      subst (λ x. Sized x d) is (empty_tree-Sized d),
      ap (λ (x : MerkleTree). x.length) (sym is),
      subst (λ (x : MerkleTree). x.capacity ≤ 2 ^ 31) is below,
    )

pub with_capacity_le :
    (requested : ℕ) {t : MerkleTree}
    → requested ≤ 2 ^ 62
    → with_capacity requested ≡ some t
    → t.capacity ≤ 2 ^ 31
with_capacity_le requested small h =
    let (d, _, ceil) = next_power_of_two-IsCeil requested in
    (with_capacity-Sized requested d small ceil h).2

module _ (sha256 : Bytes → Bytes) where
  pub with_capacity-IsTree :
      (requested : ℕ) {t : MerkleTree}
      → requested ≤ 2 ^ 62
      → with_capacity requested ≡ some t
      → IsTree sha256 t []
  with_capacity-IsTree requested {t} small h =
      let (d, same, ceil) = next_power_of_two-IsCeil requested in
      let (sized, empty, _) = with_capacity-Sized requested d small ceil h in
      record {
        height = d;
        capacity = sized.capacity;
        nodes = sized.nodes;
        count = empty;
        room = omega (arith, empty);
        leaves = λ i v found. cc found;
        levels = 0;
        ceil = record { above = omega (arith, empty); least = inl refl };
        hashed = λ i m none above. absurd (omega (arith, none, empty));
      }

-- The greatest power of two that is not above `x`.
pub record IsFloor (x l : ℕ) : Type 0 where
  pub below : 2 ^ l ≤ x
  pub greatest : x < 2 ^ suc l

floor_unique : (x a b : ℕ) → IsFloor x a → IsFloor x b → a ≡ b
floor_unique x a b ha hb =
    let one = exponent_lt a (suc b) (omega (arith, ha.below, hb.greatest)) in
    let two = exponent_lt b (suc a) (omega (arith, hb.below, ha.greatest)) in
    omega (arith, one, two)

double_below-IsFloor :
    (rounds a x : ℕ)
    → 2 ^ a ≤ x
    → x < 2 ^ (a + suc rounds)
    → (l : ℕ) × (double_below rounds (2 ^ a) x ≡ 2 ^ l) × IsFloor x l
unfolding double_below
double_below-IsFloor zero a x low high =
    let shift : a + 1 ≡ suc a = omega arith in
    (a, refl, record { below = low; greatest = rw shift at high })
double_below-IsFloor (suc rounds) a x low high = elim (Bool-cases (leb (2 ^ a * 2) x)) [
  | inl more ↦
      let shift : a + suc (suc rounds) ≡ suc a + suc rounds = omega arith in
      let (l, e, h) =
        double_below-IsFloor rounds (suc a) x (ground (arith, more, power_suc a))
          (rw shift at high) in
      (l, ground (arith, more, e, power_suc a), h)
  | inr reached ↦ (
    a,
    ground (arith, reached),
    record { below = low; greatest = ground (arith, reached, power_suc a) },
  )
]

pub prev_power_of_two-IsFloor :
    (x : ℕ) → 1 ≤ x → (l : ℕ) × (prev_power_of_two x ≡ 2 ^ l) × IsFloor x l
unfolding prev_power_of_two
prev_power_of_two-IsFloor x pos =
    let some_at : (x == 0) ≡ false = ground (arith, pos) in
    let shift : 0 + suc x ≡ suc x = omega arith in
    let high : x < 2 ^ (0 + suc x) =
      rw shift (omega (arith, below_power x, power_suc x, pow_pos x)) in
    rw some_at (double_below-IsFloor x 0 x pos high)

pub prev_power_of_two-eq : (x l : ℕ) → IsFloor x l → prev_power_of_two x ≡ 2 ^ l
prev_power_of_two-eq x l h =
    let (k, e, floor) = prev_power_of_two-IsFloor x (omega (arith, h.below, pow_pos l)) in
    let same : k ≡ l = floor_unique x k l floor h in rw same at e
