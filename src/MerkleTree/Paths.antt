-- ===== src/MerkleTree/Paths.antt =====
-- The path of a leaf leads to the top, where the places above the leaf are hashes of their children.
use native.Mathlib.Nat.{mul-le-mul_left}
use lp_0002_private_multisig.Prelude.{
  ℕ, zero, suc, ◌+◌, ◌-◌, ◌*◌, ◌/◌, ◌%◌, ◌^◌, ◌++◌, ◌≤◌, ◌<◌, ◌≡◌, refl, sym, ◌∙◌, inl, inr, true,
  false, List, [], ◌∷◌, Bytes, ◌==◌, ==_iff, Bool-cases, if◌then◌else◌, arith,
}
use lp_0002_private_multisig.Core.Commitments.{digest_along}
use lp_0002_private_multisig.MerkleTree.{get_or, hash_two, climb_path}
use lp_0002_private_multisig.MerkleTree.Ancestors.{node, IsAbove, IsHashed, double_power, pow_pos}

module _ (sha256 : Bytes → Bytes) where
  -- One step of the digest along a path.
  combined :
      (nodes : List Bytes) (b i : ℕ)
      → 2 ≤ b
      → b % 2 ≡ i % 2
      → IsHashed sha256 nodes (b / 2)
      → sha256 (
          if i % 2 == 0
          then node nodes b ++ get_or nodes (b - 1 + 1)
          else get_or nodes (b - 1 - 1) ++ node nodes b)
        ≡ node nodes (b / 2)
  unfolding hash_two
  combined nodes b i two parity h = elim (Bool-cases (i % 2 == 0)) [
    | inl even ↦
        let e0 : i % 2 ≡ 0 = (==_iff (i % 2) 0).0 even in
        let left : 2 * (b / 2) ≡ b = omega (arith, parity, e0) in
        let right : b + 1 - 1 ≡ b - 1 + 1 = omega (arith, two) in
        let whole = rw (left, right) at h in rw even (sym whole)
    | inr odd ↦
        let left : 2 * (b / 2) - 1 ≡ b - 1 - 1 = ground (arith, parity, odd) in
        let right : 2 * (b / 2) + 1 ≡ b = ground (arith, parity, odd) in
        let whole = rw (left, right) at h in rw odd (sym whole)
  ]

  -- The sibling that a round of the climb takes, and the place that it goes on from.
  climb_step :
      (rounds : ℕ) (nodes : List Bytes) (top b : ℕ)
      → 1 ≤ top
      → top < b
      → climb_path (suc rounds) nodes (top - 1) (b - 1)
        ≡ get_or nodes (if (b - 1) % 2 == 1 then b - 1 + 1 else b - 1 - 1)
          ∷ climb_path rounds nodes (top - 1) (b / 2 - 1)
  unfolding climb_path
  climb_step rounds nodes top b pos more =
      let differs : (b - 1 == top - 1) ≡ false = ground (arith, pos, more) in
      let parent : (b - 1 - 1) / 2 ≡ b / 2 - 1 = omega (arith, pos, more) in
      ground (arith, differs, parent)

  climb_stop : (rounds : ℕ) (nodes : List Bytes) (x : ℕ) → climb_path rounds nodes x x ≡ []
  unfolding climb_path
  climb_stop zero nodes x = refl
  climb_stop (suc rounds) nodes x = ground arith

  digest_cons :
      (result : Bytes) (i : ℕ) (sibling : Bytes) (path : List Bytes)
      → digest_along sha256 result i (sibling ∷ path)
        ≡ digest_along sha256
            (sha256 (if i % 2 == 0 then result ++ sibling else sibling ++ result))
            (i / 2)
            path
  unfolding digest_along
  digest_cons result i sibling path = refl

  -- The digest after a round is that from the parent on.
  digest_step :
      (rounds top b i : ℕ) (nodes : List Bytes)
      → 1 ≤ top
      → top < b
      → b % 2 ≡ i % 2
      → IsHashed sha256 nodes (b / 2)
      → digest_along sha256 (node nodes b) i (climb_path (suc rounds) nodes (top - 1) (b - 1))
        ≡ digest_along sha256
            (node nodes (b / 2))
            (i / 2)
            (climb_path rounds nodes (top - 1) (b / 2 - 1))
  digest_step rounds top b i nodes pos more parity h =
      let hashed = combined nodes b i (omega (arith, pos, more)) parity h in
      let path = climb_path rounds nodes (top - 1) (b / 2 - 1) in
      elim (Bool-cases (i % 2 == 0)) [
        | inl even ↦
            let left_child : ((b - 1) % 2 == 1) ≡ true = ground (arith, even, parity, pos, more) in
            let eq = rw even at hashed in
            rw (climb_step rounds nodes top b pos more, left_child)
              (rw (digest_cons (node nodes b) i (get_or nodes (b - 1 + 1)) path, even, eq) refl)
        | inr odd ↦
            let right_child : ((b - 1) % 2 == 1) ≡ false = ground (arith, odd, parity, pos, more) in
            let eq = rw odd at hashed in
            rw (climb_step rounds nodes top b pos more, right_child)
              (rw (digest_cons (node nodes b) i (get_or nodes (b - 1 - 1)) path, odd, eq) refl)
      ]

  pub digest_along-climb_path :
      (levels rounds top i : ℕ) (nodes : List Bytes)
      → 1 ≤ top
      → levels ≤ rounds
      → i < 2 ^ levels
      → ((m : ℕ) → IsAbove levels (top * 2 ^ levels + i) m → IsHashed sha256 nodes m)
      → let b = top * 2 ^ levels + i in
        digest_along sha256 (node nodes b) i (climb_path rounds nodes (top - 1) (b - 1))
        ≡ node nodes top
  unfolding digest_along climb_path
  digest_along-climb_path zero rounds top i nodes pos enough small h =
      let none_left : i ≡ 0 = omega (arith, small) in
      let here : top * 1 + i ≡ top = omega (arith, none_left) in
      rw (here, climb_stop rounds nodes (top - 1)) refl
  digest_along-climb_path (suc levels) zero top i nodes pos enough small h =
      absurd (omega (arith, enough))
  digest_along-climb_path (suc levels) (suc rounds) top i nodes pos enough small h =
      let b = top * 2 ^ suc levels + i in
      let up : top * 1 ≤ top * 2 ^ levels = mul-le-mul_left top (pow_pos levels) in
      let split : b ≡ top * 2 ^ levels * 2 + i = rw (double_power top levels) refl in
      let half : b / 2 ≡ top * 2 ^ levels + i / 2 = omega (arith, split) in
      let parity : b % 2 ≡ i % 2 = omega (arith, split) in
      let more : top < b = omega (arith, split, up, pos) in
      let rest =
        digest_along-climb_path levels rounds top (i / 2) nodes pos (omega (arith, enough))
          (omega (arith, small)) (λ m above. h m (inr (rw half above))) in
      digest_step rounds top b i nodes pos more parity (h (b / 2) (inl refl)) ∙ rw half rest
