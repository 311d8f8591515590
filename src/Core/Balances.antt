-- ===== src/Core/Balances.antt =====
-- `WrappedBalanceSum` of lee/state_machine/core/src/program/mod.rs: a sum of u128 balances as
-- `lo + hi * 2^128`, with `None` where `hi` would overflow.
use lp_0002_private_multisig.Prelude.{
  ℕ, ◌+◌, ◌*◌, ◌%◌, ◌<◌, ◌≤◌, ◌≡◌, refl, ◌∙◌, inl, inr, Bool-cases, Option, none, some, List, [],
  ◌∷◌, Bool, ltb, ◌&&◌, ◌==◌, if◌then◌else◌, All, length, arith,
}
use lp_0002_private_multisig.Core.Account.{u128_mod}

pub record WrappedBalanceSum : Type 0 where
  pub lo : ℕ
  pub hi : ℕ

-- One round of the loop: `overflowing_add`, and `checked_add(1)?` on an overflow.
unfoldable pub add_balance : WrappedBalanceSum → ℕ → Option WrappedBalanceSum
add_balance wrapped balance =
    let new_sum = (wrapped.lo + balance) % u128_mod in
    if ltb (wrapped.lo + balance) u128_mod
    then some (record wrapped { lo = new_sum })
    else if ltb (wrapped.hi + 1) u128_mod
    then some (record { lo = new_sum; hi = wrapped.hi + 1 })
    else none

unfoldable pub add_balances : WrappedBalanceSum → List ℕ → Option WrappedBalanceSum
unfolding add_balance
add_balances wrapped [] = some wrapped
add_balances wrapped (b ∷ bs) = elim (add_balance wrapped b) [
  | none ↦ none
  | some next ↦ add_balances next bs
]

unfoldable pub from_balances : List ℕ → Option WrappedBalanceSum
unfolding add_balances
from_balances = add_balances (record { lo = 0; hi = 0 })

-- The derived `PartialEq`.
abbrev pub wrapped_eq : WrappedBalanceSum → WrappedBalanceSum → Bool
wrapped_eq a b = a.lo == b.lo && a.hi == b.hi

-- The number that a sum stands for.
abbrev pub value : WrappedBalanceSum → ℕ
value w = w.lo + w.hi * u128_mod

abbrev pub sum : List ℕ → ℕ
sum [] = 0
sum (b ∷ bs) = b + sum bs

abbrev pub IsU128 : ℕ → Type 0
IsU128 b = b < u128_mod

pub add_balance_lem :
    (w : WrappedBalanceSum) (b : ℕ)
    → IsU128 w.lo
    → IsU128 b
    → w.hi + 1 < u128_mod
    → (v : WrappedBalanceSum) × (add_balance w b ≡ some v)
      × IsU128 v.lo
      × (v.hi ≤ w.hi + 1)
      × (value v ≡ value w + b)
unfolding add_balance
add_balance_lem w b lo hb hi = elim (Bool-cases (ltb (w.lo + b) u128_mod)) [
  | inl fits ↦ (
    record w { lo = (w.lo + b) % u128_mod },
    rw fits refl,
    ground arith,
    ground arith,
    ground arith,
  )
  | inr over ↦ (
    record { lo = (w.lo + b) % u128_mod; hi = w.hi + 1 },
    rw over (ground arith),
    ground arith,
    ground arith,
    ground arith,
  )
]

pub add_balances_lem :
    (w : WrappedBalanceSum) (bs : List ℕ)
    → IsU128 w.lo
    → All IsU128 bs
    → w.hi + length bs < u128_mod
    → (v : WrappedBalanceSum) × (add_balances w bs ≡ some v)
      × IsU128 v.lo
      × (value v ≡ value w + sum bs)
unfolding add_balances
add_balances_lem w [] lo all hi = (w, refl, lo, omega arith)
add_balances_lem w (b ∷ bs) lo all hi =
    let (next, e, next_lo, next_hi, step) = add_balance_lem w b lo all.0 (omega arith) in
    let (v, f, v_lo, total) = add_balances_lem next bs next_lo all.1 (omega arith) in
    (v, ground (arith, e, f), v_lo, omega arith)

-- Of fewer than 2^128 balances, `from_balances` computes the exact sum, without an overflow.
pub from_balances-eq-sum :
    (bs : List ℕ)
    → All IsU128 bs
    → length bs < u128_mod
    → (v : WrappedBalanceSum) × (from_balances bs ≡ some v) × IsU128 v.lo × (value v ≡ sum bs)
unfolding from_balances
from_balances-eq-sum bs all len =
    let (v, e, lo, total) =
      add_balances_lem (record { lo = 0; hi = 0 }) bs (omega arith) all (omega arith) in
    (v, e, lo, total ∙ omega arith)

-- Two sums with the low part in range are the same number only if they are the same pair.
pub value_inj : (v w : WrappedBalanceSum) → IsU128 v.lo → IsU128 w.lo → value v ≡ value w → v ≡ w
value_inj v w hv hw e = ground arith
