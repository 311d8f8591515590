-- ===== src/Prelude/Results.antt =====
-- Fallible code: a Rust `Result`, or a guest that may panic, with the error type as a parameter.
use mathlib.Core.Path.{◌≡◌, refl}
use mathlib.Core.Logic.{◌⊎◌, inl, inr}
use mathlib.Core.Bool.{Bool, true, false}
use mathlib.Core.Option.{Option, none, some}

-- `E` is the error.
pub data Result (E : Type 0) (A : Type 0) : Type 0 where
  err : E → Result E A
  ok : A → Result E A

module _ {E : Type 0} where
  -- `o.ok_or(e)?`, and `o.expect(..)` of a guest.
  abbrev pub ok_or : {A : Type 0} → Option A → E → Result E A
  ok_or none reason = err reason
  ok_or (some value) reason = ok value

  -- `ensure!(c, e)`, and `assert!(c)` of a guest.
  abbrev pub ensure : (holds : Bool) (reason : E) → Result E (Unit {0})
  ensure false reason = err reason
  ensure true reason = ok tt

  -- The `?` of a fallible call.
  infixl 5 ◌>>=◌
  abbrev pub ◌>>=◌ : {A B : Type 0} (call : Result E A) (rest : A → Result E B) → Result E B
  err reason >>= rest = err reason
  ok value >>= rest = rest value

  infixl 5 ◌>>◌
  abbrev pub ◌>>◌ : {B : Type 0} (check : Result E (Unit {0})) (rest : Result E B) → Result E B
  check >> rest = check >>= λ unit. rest

  pub Result-cases :
      {A : Type 0} (call : Result E A) → ((a : A) × (call ≡ ok a)) ⊎ ((e : E) × (call ≡ err e))
  Result-cases (err reason) = inr (reason, refl)
  Result-cases (ok value) = inl (value, refl)

  module _ {B : Type 0} {result : B} where
    -- A check that is passed on the way to a success holds.
    pub ensure-eq-ok :
        (holds : Bool) (reason : E) (rest : Result E B)
        → (ensure holds reason >> rest) ≡ ok result
        → (holds ≡ true) × (rest ≡ ok result)
    ensure-eq-ok false reason rest h = cc
    ensure-eq-ok true reason rest h = (refl, h)

    -- A call that is passed on the way to a success has succeeded.
    pub >>=-eq-ok :
        {A : Type 0} (call : Result E A) (rest : A → Result E B)
        → (call >>= rest) ≡ ok result
        → (value : A) × (call ≡ ok value) × (rest value ≡ ok result)
    >>=-eq-ok (err reason) rest h = cc
    >>=-eq-ok (ok value) rest h = (value, refl, h)
