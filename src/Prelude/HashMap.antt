-- ===== src/Prelude/HashMap.antt =====
-- `HashMap` with byte-array keys: an association list. `insert` replaces in place, so that a list
-- with distinct keys keeps them distinct; nothing the program computes depends on the order.
use mathlib.Core.Path.{◌≡◌, refl}
use mathlib.Core.Bool.{Bool, true, false}
use mathlib.Core.Option.{Option, none, some}
use mathlib.Core.List.{List, [], ◌∷◌}
use native.Mathlib.Omega.{arith}
use lp_0002_private_multisig.Prelude.Tests.{if◌then◌else◌}
use lp_0002_private_multisig.Prelude.ByteArrays.{Bytes, bytes_eq, bytes_eq_iff, bytes_eq_refl}

abbrev pub HashMap {ℓ} : Type ℓ → Type ℓ
HashMap V = List (Bytes × V)

module _ {ℓ} {V : Type ℓ} where
  unfoldable pub get : HashMap V → Bytes → Option V
  get [] k = none
  get ((j, v) ∷ m) k = if bytes_eq j k then some v else get m k

  unfoldable pub insert : HashMap V → Bytes → V → HashMap V
  insert [] k v = (k, v) ∷ []
  insert ((j, w) ∷ m) k v = if bytes_eq j k then (j, v) ∷ m else (j, w) ∷ insert m k v

  abbrev pub contains_key : HashMap V → Bytes → Bool
  contains_key m k = elim (get m k) [ none ↦ false | some _ ↦ true ]

  pub get-insert :
      (m : HashMap V) (k j : Bytes) (v : V)
      → get (insert m k v) j ≡ (if bytes_eq k j then some v else get m j)
  unfolding get insert
  get-insert [] k j v = refl
  get-insert ((i, w) ∷ m) k j v =
      ground (arith, get-insert m k j v, bytes_eq_iff k j, bytes_eq_iff i k, bytes_eq_iff i j)

  pub get-insert_self : (m : HashMap V) (k : Bytes) (v : V) → get (insert m k v) k ≡ some v
  get-insert_self m k v = rw (get-insert m k k v, bytes_eq_refl k)

  pub get-insert_ne :
      (m : HashMap V) (k j : Bytes) (v : V) → bytes_eq k j ≡ false → get (insert m k v) j ≡ get m j
  get-insert_ne m k j v h = rw (get-insert m k j v, h)
