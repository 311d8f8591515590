-- ===== src/Amm/Creation/Root.antt =====
-- The first pool: its liquidity is the square root of the product of the amounts.
use lp_0002_private_multisig.Prelude.{
  ℕ, suc, zero, ◌+◌, ◌*◌, ◌/◌, ◌^◌, ◌≤◌, ◌<◌, ◌≡◌, refl, leb, arith, Bool-cases, inl, inr,
}
use lp_0002_private_multisig.Core.Account.{u128_mod}
use lp_0002_private_multisig.Amm.Creation.{isqrt_within, isqrt}

-- The number is the floor of the square root.
pub record IsRoot (n r : ℕ) : Type 0 where
  pub below : r * r ≤ n
  pub above : n < (r + 1) * (r + 1)

doubled :
    (n quarter r : ℕ)
    → quarter ≡ n / 4
    → IsRoot quarter r
    → (2 * r * (2 * r) ≤ n) × (n < (2 * r + 2) * (2 * r + 2))
doubled n quarter r e h = (omega (arith, e, h.below), omega (arith, e, h.above))

isqrt_within-IsRoot : (fuel n : ℕ) → n < 4 ^ fuel → IsRoot n (isqrt_within fuel n)
unfolding isqrt_within
isqrt_within-IsRoot zero n h = record { below = omega arith; above = omega (arith, h) }
isqrt_within-IsRoot (suc fuel) n h =
    let r = isqrt_within fuel (n / 4) in
    let (low, high) =
      doubled n (n / 4) r refl (isqrt_within-IsRoot fuel (n / 4) (omega (arith, h))) in
    elim (Bool-cases (leb ((2 * r + 1) * (2 * r + 1)) n)) [
      | inl odd ↦ rw odd (record { below = ground (arith, odd); above = omega (arith, high) })
      | inr even ↦ rw even (record { below = low; above = ground (arith, even) })
    ]

pub isqrt-IsRoot : (n : ℕ) → n < u128_mod → IsRoot n (isqrt n)
isqrt-IsRoot n h = isqrt_within-IsRoot 64 n (omega (arith, h))
