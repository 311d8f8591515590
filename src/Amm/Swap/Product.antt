-- ===== src/Amm/Swap/Product.antt =====
-- The product of the reserves under a swap.
use native.Mathlib.Nat.{mul-le-mul_right}
use lp_0002_private_multisig.Prelude.{
  ℕ, ◌+◌, ◌-◌, ◌*◌, ◌/◌, ◌%◌, ◌≤◌, ◌<◌, ◌≡◌, sym, leb, ◌==◌, ok, Bool-cases, inl, inr, ==_iff,
  arith,
}
use lp_0002_private_multisig.Amm.Pool.{wrapping_add, checked_mul, div_ceil}
use lp_0002_private_multisig.Amm.Swap.{amount_out, amount_in, exact_input, exact_output}

-- What a price must give: it takes no more than there is, and the product does not fall.
abbrev pub IsFair : (reserve_deposit reserve_withdraw deposit withdraw : ℕ) → Type 0
IsFair from to deposit withdraw = (withdraw ≤ to) × (from * to ≤ (from + deposit) * (to - withdraw))

split_product :
    (from a to x w : ℕ) → to ≡ x + w → w * (from + a) ≤ to * a → from * to ≤ (from + a) * x
split_product from a to x w e h =
    let sum : w * (from + a) ≤ (x + w) * a = rw e at h in
    let product : from * (x + w) ≤ (from + a) * x = omega (arith, sum) in rw (sym e) at product

-- A quotient of `to * a` by more than `a` is at most `to`.
withdrawal_le : (from a to w : ℕ) → 0 < from + a → w * (from + a) ≤ to * a → w ≤ to
withdrawal_le from a to w pos h = elim (Bool-cases (leb w to)) [
  | inl le ↦ ground (arith, le)
  | inr more ↦
      let above : to + 1 ≤ w = ground (arith, more) in
      absurd (omega (arith, h, pos, mul-le-mul_right (from + a) above))
]

floor_lem : (n d : ℕ) → (n / d) * d ≤ n
floor_lem n d = omega arith

ceil_lem : (n d : ℕ) → 0 < d → n ≤ div_ceil n d * d
ceil_lem n d h = elim (Bool-cases (n % d == 0)) [
  | inl exact ↦ rw exact (omega (arith, (==_iff (n % d) 0).0 exact))
  | inr more ↦ rw more (omega (arith, h))
]

-- A fair price for the exact input.
pub floor_price : (from a to : ℕ) → 0 < from + a → IsFair from to a (to * a / (from + a))
floor_price from a to pos =
    let w = to * a / (from + a) in
    let h = floor_lem (to * a) (from + a) in
    let le = withdrawal_le from a to w pos h in
    (le, split_product from a to (to - w) w (omega (arith, le)) h)

pub exact_input_inv :
    (swap_amount_in min_amount_out from to : ℕ) {amounts : ℕ × ℕ}
    → exact_input swap_amount_in min_amount_out from to ≡ ok amounts
    → (amounts ≡ (swap_amount_in, to * swap_amount_in / wrapping_add from swap_amount_in))
      × (0 < wrapping_add from swap_amount_in)
unfolding amount_out checked_mul
exact_input_inv swap_amount_in min_amount_out from to h = (ground (arith, h), ground (arith, h))

pub exact_output_inv :
    (exact_amount_out max_amount_in from to : ℕ) {amounts : ℕ × ℕ}
    → exact_output exact_amount_out max_amount_in from to ≡ ok amounts
    → (amounts ≡ (div_ceil (from * exact_amount_out) (to - exact_amount_out), exact_amount_out))
      × (exact_amount_out < to)
      × (amounts.0 ≤ max_amount_in)
unfolding amount_in checked_mul
exact_output_inv exact_amount_out max_amount_in from to h =
    (ground (arith, h), ground (arith, h), ground (arith, h))

pub ceil_price :
    (from to out : ℕ) → out < to → IsFair from to (div_ceil (from * out) (to - out)) out
ceil_price from to out lt =
    let d = div_ceil (from * out) (to - out) in
    let h = ceil_lem (from * out) (to - out) (omega (arith, lt)) in
    let e : to ≡ to - out + out = omega (arith, lt) in
    let product : from * (to - out + out) ≤ (from + d) * (to - out) = omega (arith, h) in
    (omega (arith, lt), rw (sym e) at product)
