-- ===== src/Circuit/Bindings.antt =====
-- `assert_family_binding`, `bind_private_pda_position` and `resolve_authorization_and_record_bindings`
-- of lee/privacy_preserving_circuit/src/execution_state.rs.
use lp_0002_private_multisig.Prelude.{
  ℕ, Option, none, some, List, [], ◌∷◌, Bool, true, false, ◌||◌, Bytes, bytes_eq, contains,
  if◌then◌else◌, Result, ok, ◌>>=◌, ◌>>◌, ensure,
}
use lp_0002_private_multisig.Core.Account.{ProgramId, AccountId}
use lp_0002_private_multisig.Core.Circuit.{PdaKeys}
use lp_0002_private_multisig.Core.Keys.{for_public_pda, for_private_pda}
use lp_0002_private_multisig.Circuit.Types.{
  CircuitPanic, conflicting_binding, two_accounts_one_seed, Binding, binding_eq, get_position,
  get_family, ExecutionState,
}

unfoldable pub assert_family_binding :
    List (Binding × AccountId)
    → Binding
    → AccountId
    → Result CircuitPanic (List (Binding × AccountId))
assert_family_binding bindings b account_id = elim (get_family bindings b) [
  | none ↦ ok ((b, account_id) ∷ bindings)
  | some existing ↦ ensure (bytes_eq existing account_id) two_accounts_one_seed >> ok bindings
]

unfoldable pub bind_private_pda_position :
    List (ℕ × Binding) → ℕ → Binding → Result CircuitPanic (List (ℕ × Binding))
bind_private_pda_position map position b = elim (get_position map position) [
  | none ↦ ok ((position, b) ∷ map)
  | some existing ↦ ensure (binding_eq existing b) conflicting_binding >> ok map
]

-- Both records of one binding: the position, and then the family.
unfoldable pub bind_both :
    ExecutionState → ℕ → Binding → AccountId → Result CircuitPanic ExecutionState
bind_both s position b account_id = do
  bound ← bind_private_pda_position s.private_pda_bound_positions position b
  family ← assert_family_binding s.pda_family_binding b account_id
  ok (record s { private_pda_bound_positions = bound; pda_family_binding = family })

module _ (sha256 : Bytes → Bytes) where
  -- A private PDA's keys derive the account under the caller and the seed.
  abbrev pub private_form : Option PdaKeys → ProgramId → Bytes → AccountId → Bool
  private_form none caller seed account_id = false
  private_form (some (npk, vpk, identifier)) caller seed account_id =
      bytes_eq (for_private_pda sha256 caller seed npk vpk identifier) account_id

  -- The `find_map` over the caller's seeds: the seed, and whether the private form matches.
  unfoldable pub find_caller_seed :
      Option PdaKeys → ProgramId → AccountId → List Bytes → Option (Bytes × Bool)
  find_caller_seed keys caller account_id [] = none
  find_caller_seed keys caller account_id (seed ∷ seeds) =
      let rest = find_caller_seed keys caller account_id seeds in
      if bytes_eq (for_public_pda sha256 caller seed) account_id
      then some (seed, false)
      else if private_form keys caller seed account_id
      then some (seed, true)
      else rest

  abbrev pub MatchedSeed : Type 0
  MatchedSeed = Option (ProgramId × (Bytes × Bool))

  abbrev pub matched_caller_seed :
      Option PdaKeys → Option ProgramId → AccountId → List Bytes → MatchedSeed
  matched_caller_seed keys none account_id seeds = none
  matched_caller_seed keys (some caller) account_id seeds =
      elim (find_caller_seed keys caller account_id seeds) [
        | none ↦ none
        | some m ↦ some (caller, m)
      ]

  unfoldable pub record_match :
      ExecutionState → ℕ → AccountId → MatchedSeed → Result CircuitPanic ExecutionState
  record_match s position account_id none = ok s
  record_match s position account_id (some (caller, (seed, is_private_form))) = do
    family ← assert_family_binding s.pda_family_binding (caller, seed) account_id
    bound ←
        (if is_private_form
          then bind_private_pda_position s.private_pda_bound_positions position (caller, seed)
          else ok s.private_pda_bound_positions)
    ok (record s { private_pda_bound_positions = bound; pda_family_binding = family })

  abbrev pub is_some : MatchedSeed → Bool
  is_some none = false
  is_some (some m) = true

  -- The answer, and the state with what was recorded.
  unfoldable pub resolve_authorization_and_record_bindings :
      ExecutionState
      → AccountId
      → ℕ
      → Option ProgramId
      → List Bytes
      → Bool
      → Result CircuitPanic (Bool × ExecutionState)
  unfolding record_match
  resolve_authorization_and_record_bindings s account_id position caller seeds previous = do
    let keys = get_position s.private_pda_by_position position
    let matched = matched_caller_seed keys caller account_id seeds
    recorded ← record_match s position account_id matched
    let known = contains s.authorized_accounts account_id
    let authorized = previous || is_some matched
    ok (
      known || authorized,
      (if known
          then recorded
          else if authorized
          then record recorded { authorized_accounts = account_id ∷ recorded.authorized_accounts }
          else recorded),
    )
