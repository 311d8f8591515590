-- ===== src/Core/Program.antt =====
-- What a program receives and returns: lee/state_machine/core/src/program/mod.rs.
use lp_0002_private_multisig.Prelude.{
  ℕ, Bool, true, ◌&&◌, Option, none, some, List, [], Bytes, bytes_eq, leb, ltb, if◌then◌else◌,
  Result, ok, err, ◌>>=◌,
}
use lp_0002_private_multisig.Core.Account.{
  ProgramId, AccountId, Account, AccountWithMetadata, default_program_id,
}
use lp_0002_private_multisig.Core.Keys.{seeds_to_pdas}

abbrev pub InstructionData : Type 0
InstructionData = List ℕ

pub record ChainedCall : Type 0 where
  pub program_id : ProgramId
  pub pre_states : List AccountWithMetadata
  pub instruction_data : InstructionData
  pub pda_seeds : List Bytes

pub data Claim : Type 0 where
  authorized : Claim
  pda : Bytes → Claim

pub record AccountPostState : Type 0 where
  pub account : Account
  pub claim : Option Claim

-- `AccountPostState::new`
abbrev pub new_post_state : Account → AccountPostState
new_post_state a = record { account = a; claim = none }

-- `AccountPostState::new_claimed`
abbrev pub new_claimed : Account → Claim → AccountPostState
new_claimed a c = record { account = a; claim = some c }

-- `AccountPostState::new_claimed_if_default`
unfoldable pub new_claimed_if_default : Account → Claim → AccountPostState
new_claimed_if_default a c = record {
  account = a;
  claim = if bytes_eq a.program_owner default_program_id then some c else none;
}

-- `ValidityWindow<T>`, at block ids and timestamps (u64).
pub record ValidityWindow : Type 0 where
  pub from : Option ℕ
  pub to : Option ℕ

abbrev pub new_unbounded : ValidityWindow
new_unbounded = record { from = none; to = none }

-- `is_valid_for`: in [from, to).
unfoldable pub is_valid_for : ValidityWindow → ℕ → Bool
is_valid_for w value =
    (elim w.from [ none ↦ true | some start ↦ leb start value ])
    && (elim w.to [ none ↦ true | some end ↦ ltb value end ])

pub data InvalidWindow : Type 0 where
  invalid_window : InvalidWindow

-- `check_window`
unfoldable pub check_window : ValidityWindow → Result InvalidWindow (Unit {0})
check_window w = elim w.from [
  | none ↦ ok tt
  | some from ↦ elim w.to [
    | none ↦ ok tt
    | some to ↦ if leb to from then err invalid_window else ok tt
  ]
]

-- `TryFrom<(Option<T>, Option<T>)>`
unfoldable pub try_window : Option ℕ → Option ℕ → Result InvalidWindow ValidityWindow
unfolding check_window
try_window from to =
    let this : ValidityWindow = record { from = from; to = to } in
    check_window this >>= λ _. ok this

pub record ProgramOutput : Type 0 where
  pub self_program_id : ProgramId
  pub caller_program_id : Option ProgramId
  pub instruction_data : InstructionData
  pub pre_states : List AccountWithMetadata
  pub post_states : List AccountPostState
  pub chained_calls : List ChainedCall
  pub block_validity_window : ValidityWindow
  pub timestamp_validity_window : ValidityWindow

-- `ProgramOutput::new`
abbrev pub new_output :
    ProgramId
    → Option ProgramId
    → InstructionData
    → List AccountWithMetadata
    → List AccountPostState
    → ProgramOutput
new_output self caller words pre post = record {
  self_program_id = self;
  caller_program_id = caller;
  instruction_data = words;
  pre_states = pre;
  post_states = post;
  chained_calls = [];
  block_validity_window = new_unbounded;
  timestamp_validity_window = new_unbounded;
}

-- `with_chained_calls`
abbrev pub with_chained_calls : ProgramOutput → List ChainedCall → ProgramOutput
with_chained_calls o calls = record o { chained_calls = calls }

-- `valid_from_timestamp`
unfoldable pub valid_from_timestamp : ProgramOutput → Option ℕ → Result InvalidWindow ProgramOutput
unfolding try_window
valid_from_timestamp o ts = try_window ts o.timestamp_validity_window.to >>= λ w.
    ok (record o { timestamp_validity_window = w })

-- `valid_until_timestamp`
unfoldable pub valid_until_timestamp : ProgramOutput → Option ℕ → Result InvalidWindow ProgramOutput
unfolding try_window
valid_until_timestamp o ts = try_window o.timestamp_validity_window.from ts >>= λ w.
    ok (record o { timestamp_validity_window = w })

-- `compute_public_authorized_pdas`
unfoldable pub compute_public_authorized_pdas :
    (Bytes → Bytes) → Option ProgramId → List Bytes → List AccountId
compute_public_authorized_pdas sha256 none pda_seeds = []
compute_public_authorized_pdas sha256 (some caller) pda_seeds =
    seeds_to_pdas sha256 caller pda_seeds

-- `ProgramInput<T>`, with the raw words that `read_lee_inputs` returns beside it.
pub record ProgramInput (T : Type 0) : Type 0 where
  pub self_program_id : ProgramId
  pub caller_program_id : Option ProgramId
  pub pre_states : List AccountWithMetadata
  pub instruction : T
  pub instruction_words : InstructionData
