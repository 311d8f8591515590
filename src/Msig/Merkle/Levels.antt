-- ===== src/Msig/Merkle/Levels.antt =====
-- One round of the tree: halving an index, and the nodes of the next level.
use lp_0002_private_multisig.Prelude.{
  ℕ, zero, suc, ◌*◌, ◌/◌, ◌%◌, ◌<◌, ◌≡◌, refl, ◌⊎◌, Bytes, some, List, [], ◌∷◌, length, get_elem?,
  arith,
}
use lp_0002_private_multisig.Msig.Scheme.{hash_pair, next_level}

abbrev pub double : ℕ → ℕ
double zero = zero
double (suc k) = suc (suc (double k))

pub double-eq : (k : ℕ) → double k ≡ 2 * k
double-eq zero = refl
double-eq (suc k) = omega (arith, double-eq k)

-- An index is a left child or a right child of the node at half of it.
pub left_or_right :
    (n : ℕ) → ((n ≡ double (n / 2)) × (n % 2 ≡ 0)) ⊎ ((n ≡ suc (double (n / 2))) × (n % 2 ≡ 1))
left_or_right n = ground (arith, double-eq (n / 2))

module _ {ℓ} {A : Type ℓ} where
  pub get_elem?_lt : (xs : List A) (i : ℕ) {a : A} → get_elem? xs i ≡ some a → i < length xs
  get_elem?_lt [] i h = cc
  get_elem?_lt (x ∷ xs) zero h = omega arith
  get_elem?_lt (x ∷ xs) (suc i) h = omega (arith, get_elem?_lt xs i h)

module _ (sha256 : Bytes → Bytes) where
  pub length-next_level :
      (n : ℕ) (level : List Bytes) → length level ≡ 2 * n → length (next_level sha256 level) ≡ n
  unfolding next_level
  length-next_level n [] h = omega arith
  length-next_level n (a ∷ []) h = absurd (omega arith)
  length-next_level zero (a ∷ b ∷ rest) h = absurd (omega arith)
  length-next_level (suc n) (a ∷ b ∷ rest) h = omega (arith, length-next_level n rest (omega arith))

  pub get_elem?-next_level :
      (level : List Bytes) (k : ℕ) {a b : Bytes}
      → get_elem? level (double k) ≡ some a
      → get_elem? level (suc (double k)) ≡ some b
      → get_elem? (next_level sha256 level) k ≡ some (hash_pair sha256 a b)
  unfolding next_level
  get_elem?-next_level [] k p q = cc
  get_elem?-next_level (x ∷ []) zero p q = cc
  get_elem?-next_level (x ∷ []) (suc k) p q = cc
  get_elem?-next_level (x ∷ y ∷ rest) zero p q = cc
  get_elem?-next_level (x ∷ y ∷ rest) (suc k) p q = get_elem?-next_level rest k p q

  -- Every node of the next level is the hash of its two children.
  pub next_level_children :
      (level : List Bytes) (k : ℕ) {h : Bytes}
      → get_elem? (next_level sha256 level) k ≡ some h
      → (a b : Bytes) × (get_elem? level (double k) ≡ some a)
        × (get_elem? level (suc (double k)) ≡ some b)
        × (h ≡ hash_pair sha256 a b)
  unfolding next_level
  next_level_children [] k e = cc
  next_level_children (x ∷ []) k e = cc
  next_level_children (x ∷ y ∷ rest) zero e = (x, y, refl, refl, ground arith)
  next_level_children (x ∷ y ∷ rest) (suc k) e = next_level_children rest k e
