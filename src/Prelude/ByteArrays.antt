-- ===== src/Prelude/ByteArrays.antt =====
-- Byte strings and the fixed arrays `[u8; n]` and `[u32; n]`: lists of numbers. Their equality, the
-- sets of them, slices that may be out of range, and little-endian words.
use Prim.Native.Nat.{ℕ, zero, suc, ◌+◌, ◌-◌, ◌*◌, ◌/◌, ◌%◌, ◌<◌, ◌≤◌}
use Prim.Native.Char.{code}
use Prim.Native.String.{String}
use mathlib.Core.Path.{◌≡◌, refl}
use mathlib.Core.Logic.{◌↔◌}
use mathlib.Core.Bool.{Bool, true, false, ◌&&◌, ◌||◌}
use mathlib.Core.Option.{Option, none, some}
use mathlib.Core.List.{List, [], ◌∷◌, ◌++◌}
use native.Mathlib.Omega.{arith}
use lp_0002_private_multisig.Prelude.Tests.{leb, ◌==◌, if◌then◌else◌}
use lp_0002_private_multisig.Prelude.Lists.{length, take, drop}

abbrev pub Bytes : Type 0
Bytes = List ℕ

-- A byte string literal.
abbrev pub codes : String → Bytes
codes String.[] = []
codes (String.◌∷◌ c s) = code c ∷ codes s

-- `==` on arrays and byte strings.
unfoldable pub bytes_eq : Bytes → Bytes → Bool
bytes_eq [] [] = true
bytes_eq [] (y ∷ ys) = false
bytes_eq (x ∷ xs) [] = false
bytes_eq (x ∷ xs) (y ∷ ys) = x == y && bytes_eq xs ys

pub bytes_eq_iff : (a b : Bytes) → (bytes_eq a b ≡ true) ↔ (a ≡ b)
unfolding bytes_eq
bytes_eq_iff [] [] = ground arith
bytes_eq_iff [] (y ∷ ys) = ground arith
bytes_eq_iff (x ∷ xs) [] = ground arith
bytes_eq_iff (x ∷ xs) (y ∷ ys) = ground (arith, bytes_eq_iff xs ys)

pub bytes_eq_refl : (a : Bytes) → bytes_eq a a ≡ true
bytes_eq_refl a = (bytes_eq_iff a a).1 refl

-- `contains` of a vector or a hash set of byte arrays.
unfoldable pub contains : List Bytes → Bytes → Bool
contains [] b = false
contains (a ∷ s) b = bytes_eq a b || contains s b

pub contains-append :
    (s t : List Bytes) (b : Bytes) → contains (s ++ t) b ≡ (contains s b || contains t b)
unfolding contains
contains-append [] t b = refl
contains-append (a ∷ s) t b = ground (arith, contains-append s t b)

-- The number of different elements: the size of a `HashSet` collected from the list.
unfoldable pub n_unique : List Bytes → ℕ
n_unique [] = 0
n_unique (a ∷ s) = if contains s a then n_unique s else suc (n_unique s)

abbrev pub IsDistinct : List Bytes → Type 0
IsDistinct [] = Unit
IsDistinct (a ∷ s) = (contains s a ≡ false) × IsDistinct s

pub n_unique-le : (s : List Bytes) → n_unique s ≤ length s
unfolding n_unique
n_unique-le [] = omega arith
n_unique-le (a ∷ s) = ground (arith, n_unique-le s)

-- The set is as large as the list exactly if the elements are all different.
pub n_unique_iff : (s : List Bytes) → (n_unique s ≡ length s) ↔ IsDistinct s
unfolding n_unique
n_unique_iff [] = (λ _. tt, λ _. refl)
n_unique_iff (a ∷ s) = (
  λ h. (ground (arith, n_unique-le s), (n_unique_iff s).0 (ground (arith, n_unique-le s))),
  λ h. ground (arith, (n_unique_iff s).1 h.1),
)

-- `data[a..b]`: `none` where the index panics.
unfoldable pub slice : ℕ → ℕ → Bytes → Option Bytes
slice a b xs = if leb a b && leb b (length xs) then some (take (b - a) (drop a xs)) else none

-- `u32::to_le_bytes`, `u32::from_le_bytes` of the first four bytes.
unfoldable pub u32_to_le_bytes : ℕ → Bytes
u32_to_le_bytes n = n % 256 ∷ (n / 256) % 256 ∷ (n / 65536) % 256 ∷ (n / 16777216) % 256 ∷ []

unfoldable pub u32_from_le_bytes : Bytes → ℕ
u32_from_le_bytes (a ∷ b ∷ c ∷ d ∷ _) = a + 256 * b + 65536 * c + 16777216 * d
u32_from_le_bytes _ = 0

abbrev pub u32_mod : ℕ
u32_mod = 4294967296

pub u32_le_bytes_roundtrip : (n : ℕ) → n < u32_mod → u32_from_le_bytes (u32_to_le_bytes n) ≡ n
unfolding u32_to_le_bytes u32_from_le_bytes
u32_le_bytes_roundtrip n h = omega arith

pub length-u32_to_le_bytes : (n : ℕ) → length (u32_to_le_bytes n) ≡ 4
unfolding u32_to_le_bytes
length-u32_to_le_bytes n = refl

-- Little-endian bytes of any width, for `u128::to_le_bytes`.
unfoldable pub to_le_bytes : ℕ → ℕ → Bytes
to_le_bytes zero n = []
to_le_bytes (suc w) n = (n % 256) ∷ to_le_bytes w (n / 256)
