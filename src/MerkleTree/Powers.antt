-- ===== src/MerkleTree/Powers.antt =====
-- Powers of two, as the tree computes them: `next_power_of_two`, `trailing_zeros`, `prev_power_of_two`.
use native.Mathlib.Nat.{pow-suc, pow-le-pow_right}
use lp_0002_private_multisig.Prelude.{
  ℕ, zero, suc, ◌+◌, ◌-◌, ◌*◌, ◌/◌, ◌%◌, ◌^◌, ◌≤◌, ◌<◌, ◌≡◌, ◌⊎◌, refl, inl, inr, true, leb, ltb,
  ◌==◌, Bool-cases, arith,
}
use lp_0002_private_multisig.MerkleTree.{
  MerkleTree, double_until, next_power_of_two, count_zeros, trailing_zeros, depth,
}
use lp_0002_private_multisig.MerkleTree.Ancestors.{pow_pos, double_power}

-- The least power of two that is not below `n`.
pub record IsCeil (n d : ℕ) : Type 0 where
  pub above : n ≤ 2 ^ d
  pub least : (d ≡ 0) ⊎ (2 ^ d < 2 * n)

pub power_suc : (n : ℕ) → 2 ^ suc n ≡ 2 ^ n * 2
power_suc n = pow-suc 2 n

pub exponent_lt : (a b : ℕ) → 2 ^ a < 2 ^ b → a < b
exponent_lt a b h = elim (Bool-cases (ltb a b)) [
  | inl lt ↦ ground (arith, lt)
  | inr ge ↦
      let le : b ≤ a = ground (arith, ge) in
      let powers : 2 ^ b ≤ 2 ^ a = pow-le-pow_right (omega arith) le in
      absurd (omega (arith, h, powers))
]

pub below_power : (n : ℕ) → n ≤ 2 ^ n
below_power zero = omega arith
below_power (suc n) = omega (arith, below_power n, power_suc n, pow_pos n)

pub ceil_le : (n d e : ℕ) → IsCeil n d → n ≤ 2 ^ e → d ≤ e
ceil_le n d e hd h = elim hd.least [
  | inl none ↦ omega (arith, none)
  | inr least ↦
      let lt : 2 ^ d < 2 ^ suc e = omega (arith, least, h, power_suc e) in
      omega (arith, exponent_lt d (suc e) lt)
]

pub ceil_unique : (n d e : ℕ) → IsCeil n d → IsCeil n e → d ≡ e
ceil_unique n d e hd he = omega (arith, ceil_le n d e hd he.above, ceil_le n e d he hd.above)

-- One more: the same power, or the next if the power is full.
pub ceil_suc : (n d e : ℕ) → IsCeil n d → IsCeil (n + 1) e → (e ≡ d) ⊎ ((e ≡ suc d) × (n ≡ 2 ^ d))
ceil_suc n d e hd he = elim (Bool-cases (leb (n + 1) (2 ^ d))) [
  | inl room ↦
      let least : (d ≡ 0) ⊎ (2 ^ d < 2 * (n + 1)) = elim hd.least [
        | inl none ↦ inl none
        | inr more ↦ inr (omega (arith, more))
      ] in
      let ceil : IsCeil (n + 1) d = record { above = ground (arith, room); least = least } in
      inl (ceil_unique (n + 1) e d he ceil)
  | inr full ↦
      let all : n ≡ 2 ^ d = ground (arith, full, hd.above) in
      let ceil : IsCeil (n + 1) (suc d) = record {
        above = omega (arith, all, power_suc d, pow_pos d);
        least = inr (omega (arith, all, power_suc d));
      } in
      inr (ceil_unique (n + 1) e (suc d) he ceil, all)
]

double_until-IsCeil :
    (rounds a n : ℕ)
    → n ≤ 2 ^ (a + rounds)
    → (a ≡ 0) ⊎ (2 ^ a < 2 * n)
    → (d : ℕ) × (double_until rounds (2 ^ a) n ≡ 2 ^ d) × IsCeil n d
unfolding double_until
double_until-IsCeil zero a n enough least =
    (a, refl, record { above = ground (arith, enough); least = least })
double_until-IsCeil (suc rounds) a n enough least = elim (Bool-cases (leb n (2 ^ a))) [
  | inl reached ↦
      (a, ground (arith, reached), record { above = ground (arith, reached); least = least })
  | inr more ↦
      let shift : a + suc rounds ≡ suc a + rounds = omega arith in
      let (d, e, h) =
        double_until-IsCeil rounds (suc a) n (rw shift at enough)
          (inr (ground (arith, more, power_suc a))) in
      (d, ground (arith, more, e, power_suc a), h)
]

count_zeros-power : (bits d : ℕ) → d < bits → count_zeros bits (2 ^ d) ≡ d
unfolding count_zeros
count_zeros-power zero d h = absurd (omega (arith, h))
count_zeros-power (suc bits) zero h = refl
count_zeros-power (suc bits) (suc d) h =
    let even : (2 ^ suc d % 2 == 0) ≡ true = ground (arith, power_suc d) in
    let half : 2 ^ suc d / 2 ≡ 2 ^ d = omega (arith, power_suc d) in
    let rest = count_zeros-power bits d (omega (arith, h)) in ground (arith, even, half, rest)

pub trailing_zeros-power : (d : ℕ) → d < 64 → trailing_zeros (2 ^ d) ≡ d
unfolding trailing_zeros
trailing_zeros-power d h = count_zeros-power 64 d h

pub next_power_of_two-IsCeil : (n : ℕ) → (d : ℕ) × (next_power_of_two n ≡ 2 ^ d) × IsCeil n d
unfolding next_power_of_two
next_power_of_two-IsCeil n =
    let shift : 0 + n ≡ n = omega arith in
    double_until-IsCeil n 0 n (rw shift (below_power n)) (inl refl)

-- `depth`, for lengths far below 2^64.
pub depth-IsCeil : (t : MerkleTree) → t.length ≤ 2 ^ 62 → IsCeil t.length (depth t)
unfolding depth
depth-IsCeil t h =
    let (d, e, ceil) = next_power_of_two-IsCeil t.length in
    let small = ceil_le t.length d 62 ceil h in
    rw (e, trailing_zeros-power d (omega (arith, small))) ceil

power_sum : (k e : ℕ) → 2 ^ k * 2 ^ e ≡ 2 ^ (k + e)
power_sum k zero = let shift : k + 0 ≡ k = omega arith in rw shift (omega arith)
power_sum k (suc e) =
    let shift : k + suc e ≡ suc (k + e) = omega arith in
    rw shift (omega (arith, double_power (2 ^ k) e, power_sum k e, power_suc (k + e)))

pub power_split : (e h : ℕ) → e ≤ h → 2 ^ (h - e) * 2 ^ e ≡ 2 ^ h
power_split e h le =
    let shift : h - e + e ≡ h = omega (arith, le) in rw shift at (power_sum (h - e) e)
