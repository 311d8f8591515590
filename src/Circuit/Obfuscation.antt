-- ===== src/Circuit/Obfuscation.antt =====
-- `obfuscate_output_ordering` of lee/privacy_preserving_circuit/src/output.rs.
pub mod Sorted
use mathlib.Core.List.{map}
use lp_0002_private_multisig.Prelude.{
  ℕ, List, [], ◌∷◌, Bool, true, false, Bytes, ltb, ◌==◌, if◌then◌else◌,
}
use lp_0002_private_multisig.Core.Circuit.{PrivateAction}
use lp_0002_private_multisig.Core.Commitments.{Commitment, Nullifier}

-- The order of byte arrays.
unfoldable pub bytes_leb : Bytes → Bytes → Bool
bytes_leb [] ys = true
bytes_leb (x ∷ xs) [] = false
bytes_leb (x ∷ xs) (y ∷ ys) =
    let rest = bytes_leb xs ys in if ltb x y then true else if x == y then rest else false

-- `sort_unstable_by_key`, here by insertion: elements with one key may come in any order.
unfoldable pub insert_by_key : {A : Type 0} → (A → Bytes) → A → List A → List A
insert_by_key key x [] = x ∷ []
insert_by_key key x (y ∷ ys) =
    let rest = insert_by_key key x ys in if bytes_leb (key x) (key y) then x ∷ y ∷ ys else y ∷ rest

unfoldable pub sort_by_key : {A : Type 0} → (A → Bytes) → List A → List A
unfolding insert_by_key
sort_by_key key [] = []
sort_by_key key (x ∷ xs) = insert_by_key key x (sort_by_key key xs)

abbrev pub nullifier_of : PrivateAction → Nullifier
nullifier_of action = action.nullifier

abbrev pub commitment_of : PrivateAction → Commitment
commitment_of action = action.commitment

-- The loop that puts the sorted commitments into the sorted actions.
unfoldable pub assign_commitments : List PrivateAction → List Commitment → List PrivateAction
assign_commitments (action ∷ actions) (commitment ∷ rest) =
    record action { commitment = commitment } ∷ assign_commitments actions rest
assign_commitments actions _ = actions

unfoldable pub obfuscate_output_ordering : List PrivateAction → List PrivateAction
obfuscate_output_ordering actions =
    assign_commitments (sort_by_key nullifier_of actions)
      (sort_by_key (λ commitment. commitment) (map commitment_of actions))
