-- ===== src/Circuit/Obfuscation/Sorted.antt =====
-- What the obfuscation of the order does to the private actions (output.rs).
use mathlib.Core.Path.{subst}
use mathlib.Core.List.{Perm, map}
use mathlib.Core.List.Perm
use lp_0002_private_multisig.Prelude.{
  suc, ◌+◌, ◌≡◌, refl, ap, ◌∙◌, List, [], ◌∷◌, true, false, Bytes, All, length, Bool-cases, inl,
  inr, arith,
}
use lp_0002_private_multisig.Core.Circuit.{PrivateAction, EncryptedAccountData}
use lp_0002_private_multisig.Core.Commitments.{Commitment, Nullifier, CommitmentSetDigest}
use lp_0002_private_multisig.Circuit.Obfuscation.{
  bytes_leb, insert_by_key, sort_by_key, nullifier_of, commitment_of, assign_commitments,
  obfuscate_output_ordering,
}

-- Every key is at most each later one.
abbrev pub IsSorted : List Bytes → Type 0
IsSorted [] = Unit
IsSorted (x ∷ xs) = All (λ y. bytes_leb x y ≡ true) xs × IsSorted xs

bytes_leb_total : (xs ys : Bytes) → bytes_leb xs ys ≡ false → bytes_leb ys xs ≡ true
unfolding bytes_leb
bytes_leb_total [] ys h = absurd (ground (arith, h))
bytes_leb_total (x ∷ xs) [] h = refl
bytes_leb_total (x ∷ xs) (y ∷ ys) h = ground (arith, h, bytes_leb_total xs ys)

bytes_leb_trans :
    (xs ys zs : Bytes) → bytes_leb xs ys ≡ true → bytes_leb ys zs ≡ true → bytes_leb xs zs ≡ true
unfolding bytes_leb
bytes_leb_trans [] ys zs h k = refl
bytes_leb_trans (x ∷ xs) [] zs h k = absurd (ground (arith, h))
bytes_leb_trans (x ∷ xs) (y ∷ ys) [] h k = absurd (ground (arith, k))
bytes_leb_trans (x ∷ xs) (y ∷ ys) (z ∷ zs) h k = ground (arith, h, k, bytes_leb_trans xs ys zs)

above_every :
    (x y : Bytes) (zs : List Bytes)
    → bytes_leb x y ≡ true
    → All (λ z. bytes_leb y z ≡ true) zs
    → All (λ z. bytes_leb x z ≡ true) zs
above_every x y [] h k = tt
above_every x y (z ∷ zs) h k = (bytes_leb_trans x y z h k.0, above_every x y zs h k.1)

module _ {A : Type 0} (key : A → Bytes) where
  insert_by_key-All :
      (b : Bytes) (x : A) (ys : List A)
      → bytes_leb b (key x) ≡ true
      → All (λ z. bytes_leb b z ≡ true) (map key ys)
      → All (λ z. bytes_leb b z ≡ true) (map key (insert_by_key key x ys))
  unfolding insert_by_key
  insert_by_key-All b x [] h k = (h, tt)
  insert_by_key-All b x (y ∷ ys) h k = elim (Bool-cases (bytes_leb (key x) (key y))) [
    | inl first ↦ rw first (h, k)
    | inr later ↦ rw later (k.0, insert_by_key-All b x ys h k.1)
  ]

  insert_by_key-IsSorted :
      (x : A) (ys : List A) → IsSorted (map key ys) → IsSorted (map key (insert_by_key key x ys))
  unfolding insert_by_key
  insert_by_key-IsSorted x [] s = (tt, tt)
  insert_by_key-IsSorted x (y ∷ ys) s = elim (Bool-cases (bytes_leb (key x) (key y))) [
    | inl first ↦ rw first ((first, above_every (key x) (key y) (map key ys) first s.0), s)
    | inr later ↦ rw later (
      insert_by_key-All (key y) x ys (bytes_leb_total (key x) (key y) later) s.0,
      insert_by_key-IsSorted x ys s.1,
    )
  ]

  sort_by_key-IsSorted : (xs : List A) → IsSorted (map key (sort_by_key key xs))
  unfolding sort_by_key
  sort_by_key-IsSorted [] = tt
  sort_by_key-IsSorted (x ∷ xs) =
      insert_by_key-IsSorted x (sort_by_key key xs) (sort_by_key-IsSorted xs)

  insert_by_key-Perm : (x : A) (ys : List A) → Perm (insert_by_key key x ys) (x ∷ ys)
  unfolding insert_by_key
  insert_by_key-Perm x [] = Perm.rfl
  insert_by_key-Perm x (y ∷ ys) = elim (Bool-cases (bytes_leb (key x) (key y))) [
    | inl first ↦ rw first Perm.rfl
    | inr later ↦ rw later (Perm.trans (Perm.cons y (insert_by_key-Perm x ys)) (Perm.swap x y ys))
  ]

  sort_by_key-Perm : (xs : List A) → Perm (sort_by_key key xs) xs
  unfolding sort_by_key
  sort_by_key-Perm [] = Perm.rfl
  sort_by_key-Perm (x ∷ xs) =
      Perm.trans (insert_by_key-Perm x (sort_by_key key xs)) (Perm.cons x (sort_by_key-Perm xs))

  length-insert_by_key : (x : A) (ys : List A) → length (insert_by_key key x ys) ≡ length ys + 1
  unfolding insert_by_key
  length-insert_by_key x [] = refl
  length-insert_by_key x (y ∷ ys) = ground (arith, length-insert_by_key x ys)

  length-sort_by_key : (xs : List A) → length (sort_by_key key xs) ≡ length xs
  unfolding sort_by_key
  length-sort_by_key [] = refl
  length-sort_by_key (x ∷ xs) =
      omega (arith, length-insert_by_key x (sort_by_key key xs), length-sort_by_key xs)

-- An action without its commitment.
abbrev pub note_of : PrivateAction → Nullifier × (CommitmentSetDigest × EncryptedAccountData)
note_of action = (action.nullifier, (action.root, action.encrypted_post_state))

assign_commitments_lem :
    (actions : List PrivateAction) (cs : List Commitment)
    → length cs ≡ length actions
    → (map commitment_of (assign_commitments actions cs) ≡ cs)
      × (map note_of (assign_commitments actions cs) ≡ map note_of actions)
      × (map nullifier_of (assign_commitments actions cs) ≡ map nullifier_of actions)
unfolding assign_commitments
assign_commitments_lem [] [] h = (refl, refl, refl)
assign_commitments_lem [] (c ∷ cs) h = absurd (omega arith)
assign_commitments_lem (action ∷ actions) [] h = absurd (omega arith)
assign_commitments_lem (action ∷ actions) (c ∷ cs) h =
    let (ids, notes, spent) = assign_commitments_lem actions cs (omega arith) in
    (
      ap (λ (l : List Bytes). c ∷ l) ids,
      ap
          (λ (l : List (Nullifier × (CommitmentSetDigest × EncryptedAccountData))).
            note_of action ∷ l)
          notes,
      ap (λ (l : List Bytes). action.nullifier ∷ l) spent,
    )

length-assign_commitments :
    (actions : List PrivateAction) (cs : List Commitment)
    → length (assign_commitments actions cs) ≡ length actions
unfolding assign_commitments
length-assign_commitments [] [] = refl
length-assign_commitments [] (c ∷ cs) = refl
length-assign_commitments (action ∷ actions) [] = refl
length-assign_commitments (action ∷ actions) (c ∷ cs) =
    ap suc (length-assign_commitments actions cs)

length-commitments :
    (actions : List PrivateAction) → length (map commitment_of actions) ≡ length actions
length-commitments [] = refl
length-commitments (action ∷ actions) = ap suc (length-commitments actions)

pub length-obfuscate_output_ordering :
    (actions : List PrivateAction) → length (obfuscate_output_ordering actions) ≡ length actions
unfolding obfuscate_output_ordering
length-obfuscate_output_ordering actions =
    length-assign_commitments (sort_by_key nullifier_of actions)
      (sort_by_key (λ c. c) (map commitment_of actions))
    ∙ length-sort_by_key nullifier_of actions

map_id : (ids : List Commitment) → map (λ (c : Commitment). c) ids ≡ ids
map_id [] = refl
map_id (c ∷ ids) = ap (λ (l : List Commitment). c ∷ l) (map_id ids)

sort_identity : (ids : List Commitment) → IsSorted (sort_by_key (λ (c : Commitment). c) ids)
sort_identity ids =
    subst IsSorted (map_id (sort_by_key (λ c. c) ids))
      (sort_by_key-IsSorted (λ (c : Commitment). c) ids)

-- The private actions as they are committed: the nullifiers are in order, the commitments are in order
-- on their own, they are the commitments that were emitted, and every nullifier keeps its digest and
-- its encrypted note.
pub obfuscate_output_ordering_lem :
    (actions : List PrivateAction)
    → IsSorted (map nullifier_of (obfuscate_output_ordering actions))
      × IsSorted (map commitment_of (obfuscate_output_ordering actions))
      × Perm (map commitment_of (obfuscate_output_ordering actions)) (map commitment_of actions)
      × Perm (map note_of (obfuscate_output_ordering actions)) (map note_of actions)
unfolding obfuscate_output_ordering
obfuscate_output_ordering_lem actions =
    let by_nullifier = sort_by_key nullifier_of actions in
    let ids = map commitment_of actions in
    let (put, notes, spent) = assign_commitments_lem by_nullifier (sort_by_key (λ c. c) ids) (
      omega (
        arith,
        length-sort_by_key (λ c. c) ids,
        length-commitments actions,
        length-sort_by_key nullifier_of actions,
      )) in
    (
      rw spent (sort_by_key-IsSorted nullifier_of actions),
      rw put (sort_identity ids),
      rw put (sort_by_key-Perm (λ c. c) ids),
      rw notes (Perm.map note_of (sort_by_key-Perm nullifier_of actions)),
    )
