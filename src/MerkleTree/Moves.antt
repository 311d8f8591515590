-- ===== src/MerkleTree/Moves.antt =====
-- Where `reallocate_to_double_capacity` copies the nodes to.
use mathlib.Core.Path.{subst}
use native.Mathlib.Nat.{pow-le-pow_right, mul-le-mul_left}
use lp_0002_private_multisig.Prelude.{
  ℕ, zero, suc, ◌+◌, ◌*◌, ◌/◌, ◌^◌, ◌≤◌, ◌<◌, ◌≡◌, ◌≢◌, refl, ap, ◌∙◌, inl, inr, List, [], ◌∷◌,
  Bytes, ◌%◌, ◌==◌, Bool-cases, length, arith,
}
use lp_0002_private_multisig.MerkleTree.{get_or, set, prev_power_of_two, copy_nodes}
use lp_0002_private_multisig.MerkleTree.Ancestors.{
  IsAbove, length-set, get_or-set, double_power, pow_pos,
}
use lp_0002_private_multisig.MerkleTree.Powers.{power_suc, exponent_lt}
use lp_0002_private_multisig.MerkleTree.Growth.{
  IsFloor, prev_power_of_two-IsFloor, prev_power_of_two-eq,
}

-- The place that a node moves to.
abbrev pub moved : ℕ → ℕ
moved j = j + prev_power_of_two j

pub moved-double : (m : ℕ) → 1 ≤ m → moved (2 * m) ≡ 2 * moved m
moved-double m pos =
    let (l, e, floor) = prev_power_of_two-IsFloor m pos in
    let twice : IsFloor (2 * m) (suc l) = record {
      below = omega (arith, floor.below, power_suc l);
      greatest = omega (arith, floor.greatest, power_suc (suc l));
    } in
    omega (arith, e, prev_power_of_two-eq (2 * m) (suc l) twice, power_suc l)

pub moved-double_suc : (m : ℕ) → 1 ≤ m → moved (2 * m + 1) ≡ 2 * moved m + 1
moved-double_suc m pos =
    let (l, e, floor) = prev_power_of_two-IsFloor m pos in
    let twice : IsFloor (2 * m + 1) (suc l) = record {
      below = omega (arith, floor.below, power_suc l);
      greatest = omega (arith, floor.greatest, power_suc (suc l));
    } in
    omega (arith, e, prev_power_of_two-eq (2 * m + 1) (suc l) twice, power_suc l)

moved-half : (b : ℕ) → 2 ≤ b → moved b / 2 ≡ moved (b / 2)
moved-half b two = elim (Bool-cases (b % 2 == 0)) [
  | inl even ↦
      let split : b ≡ 2 * (b / 2) = ground (arith, even) in
      omega (arith, ap moved split, moved-double (b / 2) (omega (arith, two)))
  | inr odd ↦
      let split : b ≡ 2 * (b / 2) + 1 = ground (arith, odd) in
      omega (arith, ap moved split, moved-double_suc (b / 2) (omega (arith, two)))
]

-- A leaf of a tree of 2 ^ h places.
pub moved-leaf : (h i : ℕ) → i < 2 ^ h → moved (2 ^ h + i) ≡ 2 ^ suc h + i
moved-leaf h i lt =
    let floor : IsFloor (2 ^ h + i) h = record {
      below = omega arith;
      greatest = omega (arith, lt, power_suc h);
    } in
    omega (arith, prev_power_of_two-eq (2 ^ h + i) h floor, power_suc h)

-- The order of the places stays.
moved-suc : (j : ℕ) → 1 ≤ j → moved j < moved (j + 1)
moved-suc j pos =
    let (l, e, floor) = prev_power_of_two-IsFloor j pos in
    let (k, e', floor') = prev_power_of_two-IsFloor (j + 1) (omega arith) in
    let less : l < suc k = exponent_lt l (suc k) (omega (arith, floor.below, floor'.greatest)) in
    let powers : 2 ^ l ≤ 2 ^ k = pow-le-pow_right (omega arith) (omega (arith, less)) in
    omega (arith, e, e', powers)

get_or-set_ne :
    (xs : List Bytes) (i j : ℕ) (v : Bytes) → i ≢ j → get_or (set xs i v) j ≡ get_or xs j
get_or-set_ne [] i j v h = refl
get_or-set_ne (x ∷ xs) zero zero v h = absurd (h refl)
get_or-set_ne (x ∷ xs) zero (suc j) v h = refl
get_or-set_ne (x ∷ xs) (suc i) zero v h = refl
get_or-set_ne (x ∷ xs) (suc i) (suc j) v h = get_or-set_ne xs i j v (λ e. h (ap suc e))

pub length-copy_nodes :
    (values : List Bytes) (index : ℕ) (target : List Bytes)
    → length (copy_nodes values index target) ≡ length target
unfolding copy_nodes
length-copy_nodes [] index target = refl
length-copy_nodes (v ∷ values) index target =
    length-copy_nodes values (index + 1) (set target (index + prev_power_of_two (index + 1)) v)
    ∙ length-set target (index + prev_power_of_two (index + 1)) v

copy_nodes-before :
    (values : List Bytes) (index p : ℕ) (target : List Bytes)
    → p < index + prev_power_of_two (index + 1)
    → get_or (copy_nodes values index target) p ≡ get_or target p
unfolding copy_nodes
copy_nodes-before [] index p target h = refl
copy_nodes-before (v ∷ values) index p target h =
    let here = index + prev_power_of_two (index + 1) in
    let later : p < index + 1 + prev_power_of_two (index + 1 + 1) =
      omega (arith, h, moved-suc (index + 1) (omega arith)) in
    copy_nodes-before values (index + 1) p (set target here v) later
    ∙ get_or-set_ne target here p v (λ e. omega (arith, e, h))

pub copy_nodes-at :
    (values : List Bytes) (index a : ℕ) (target : List Bytes)
    → a < length values
    → index + a + prev_power_of_two (index + a + 1) < length target
    → get_or (copy_nodes values index target) (index + a + prev_power_of_two (index + a + 1))
      ≡ get_or values a
unfolding copy_nodes
copy_nodes-at [] index a target h fits = absurd (omega (arith, h))
copy_nodes-at (v ∷ values) index zero target h fits =
    let here = index + prev_power_of_two (index + 1) in
    let shift : index + 0 ≡ index = omega arith in
    let later : here < index + 1 + prev_power_of_two (index + 1 + 1) =
      omega (arith, moved-suc (index + 1) (omega arith)) in
    let fits' : here < length target = rw shift at fits in
    rw shift (
      copy_nodes-before values (index + 1) here (set target here v) later
      ∙ ground (arith, get_or-set target here here v fits'))
copy_nodes-at (v ∷ values) index (suc a) target h fits =
    let here = index + prev_power_of_two (index + 1) in
    let shift : index + suc a ≡ index + 1 + a = omega arith in
    let long : index + 1 + a + prev_power_of_two (index + 1 + a + 1) < length (set target here v) =
      rw (length-set target here v) (rw shift at fits) in
    rw shift (copy_nodes-at values (index + 1) a (set target here v) (omega (arith, h)) long)

-- The places above a moved one are the moved places above it.
pub moved-IsAbove :
    (levels top b m : ℕ)
    → 1 ≤ top
    → top * 2 ^ levels ≤ b
    → IsAbove levels (moved b) m
    → (below : ℕ) × IsAbove levels b below × (m ≡ moved below)
moved-IsAbove zero top b m pos low above = elim above [ ]
moved-IsAbove (suc levels) top b m pos low above =
    let low' : top * 2 ^ levels ≤ b / 2 = omega (arith, low, double_power top levels) in
    let up : top * 1 ≤ top * 2 ^ levels = mul-le-mul_left top (pow_pos levels) in
    let half = moved-half b (omega (arith, pos, low', up)) in
    elim above [
      | inl e ↦ (b / 2, inl refl, e ∙ half)
      | inr more ↦
          let (below, above', e) =
            moved-IsAbove levels top (b / 2) m pos low'
              (subst (λ x. IsAbove levels x m) half more) in
          (below, inr above', e)
    ]
