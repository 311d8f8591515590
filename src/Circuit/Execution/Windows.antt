-- ===== src/Circuit/Execution/Windows.antt =====
-- The validity windows that `derive_from_outputs` computes (execution_state.rs).
use lp_0002_private_multisig.Prelude.{
  ℕ, ◌≡◌, ◌↔◌, Option, none, some, List, [], ◌∷◌, true, ok, All, leb, ltb, arith,
}
use lp_0002_private_multisig.Core.Program.{ValidityWindow, is_valid_for, check_window, try_window}
use lp_0002_private_multisig.Circuit.Execution.{
  latest, earliest, starts_of, ends_of, intersect_windows,
}

abbrev AllowsFrom : Option ℕ → ℕ → Type 0
AllowsFrom start value = elim start [ none ↦ true | some a ↦ leb a value ] ≡ true

abbrev AllowsTo : Option ℕ → ℕ → Type 0
AllowsTo end value = elim end [ none ↦ true | some b ↦ ltb value b ] ≡ true

latest_iff :
    (ws : List ValidityWindow) (value : ℕ)
    → AllowsFrom (latest (starts_of ws)) value ↔ All (λ w. AllowsFrom w.from value) ws
unfolding latest
latest_iff [] value = ground arith
latest_iff (w ∷ ws) value = ground (arith, latest_iff ws value)

earliest_iff :
    (ws : List ValidityWindow) (value : ℕ)
    → AllowsTo (earliest (ends_of ws)) value ↔ All (λ w. AllowsTo w.to value) ws
unfolding earliest
earliest_iff [] value = ground arith
earliest_iff (w ∷ ws) value = ground (arith, earliest_iff ws value)

is_valid_for_iff :
    (w : ValidityWindow) (value : ℕ)
    → (is_valid_for w value ≡ true) ↔ (AllowsFrom w.from value × AllowsTo w.to value)
unfolding is_valid_for
is_valid_for_iff w value = ground arith

both_bounds :
    (ws : List ValidityWindow) (value : ℕ)
    → All (λ w. is_valid_for w value ≡ true) ws
      ↔ (All (λ w. AllowsFrom w.from value) ws × All (λ w. AllowsTo w.to value) ws)
both_bounds [] value = ground arith
both_bounds (w ∷ ws) value = ground (arith, is_valid_for_iff w value, both_bounds ws value)

-- A window that is computed is made of the two bounds.
intersect_windows_inv :
    (ws : List ValidityWindow) {w : ValidityWindow}
    → intersect_windows ws ≡ ok w
    → (w.from ≡ latest (starts_of ws)) × (w.to ≡ earliest (ends_of ws))
unfolding intersect_windows try_window check_window
intersect_windows_inv ws h = ground arith

-- If the windows of the outputs have an intersection that is not empty, the window of the execution
-- admits a value exactly if the windows of all the outputs admit it.
pub intersect_windows-is_valid_for :
    (ws : List ValidityWindow) {w : ValidityWindow} (value : ℕ)
    → intersect_windows ws ≡ ok w
    → (is_valid_for w value ≡ true) ↔ All (λ v. is_valid_for v value ≡ true) ws
intersect_windows-is_valid_for ws {w} value h =
    let (start, end) = intersect_windows_inv ws h in
    ground (
      arith,
      is_valid_for_iff w value,
      both_bounds ws value,
      latest_iff ws value,
      earliest_iff ws value,
      start,
      end,
    )
