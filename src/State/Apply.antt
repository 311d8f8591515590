-- ===== src/State/Apply.antt =====
-- How a validated diff changes the state: `apply_state_diff` of state/mod.rs and the sets it extends.
use lp_0002_private_multisig.Prelude.{
  Option, none, some, List, [], ◌∷◌, Bytes, contains, if◌then◌else◌,
}
use lp_0002_private_multisig.Prelude.HashMap
use lp_0002_private_multisig.Prelude.HashMap.{HashMap}
use lp_0002_private_multisig.Core.Account.{AccountId, Account, public_account_nonce_increment}
use lp_0002_private_multisig.MerkleTree
use lp_0002_private_multisig.State.Types.{
  CommitmentSet, V03State, StateDiff, Program, lookup_account,
}

-- `for (account_id, account) in public_diff { *self.get_account_by_id_mut(account_id) = account }`
unfoldable pub write_accounts : HashMap Account → HashMap Account → HashMap Account
write_accounts [] m = m
write_accounts ((id, account) ∷ diff) m = write_accounts diff (HashMap.insert m id account)

-- The loop over the signers; `none` is the panic of a nonce that overflows.
unfoldable pub increment_nonces : List AccountId → HashMap Account → Option (HashMap Account)
increment_nonces [] m = some m
increment_nonces (id ∷ ids) m =
    let account = lookup_account m id in
    elim (public_account_nonce_increment account.nonce) [
      | none ↦ none
      | some nonce ↦ increment_nonces ids (HashMap.insert m id (record account { nonce = nonce }))
    ]

-- A hash set takes an element once.
unfoldable pub insert_set : List Bytes → Bytes → List Bytes
insert_set s b = if contains s b then s else b ∷ s

unfoldable pub extend_set : List Bytes → List Bytes → List Bytes
unfolding insert_set
extend_set s [] = s
extend_set s (b ∷ bs) = extend_set (insert_set s b) bs

-- The loop of `CommitmentSet::extend`; `none` where the tree panics.
unfoldable pub insert_commitments :
    (Bytes → Bytes) → List Bytes → CommitmentSet → Option CommitmentSet
insert_commitments sha256 [] set = some set
insert_commitments sha256 (c ∷ cs) set = elim (MerkleTree.insert sha256 set.merkle_tree c) [
  | none ↦ none
  | some inserted ↦ insert_commitments sha256 cs (record set {
    merkle_tree = inserted.0;
    commitments = HashMap.insert set.commitments c inserted.1;
  })
]

-- `CommitmentSet::extend`: the digest after the commitments enters the history, also for none.
unfoldable pub extend_commitments :
    (Bytes → Bytes) → CommitmentSet → List Bytes → Option CommitmentSet
unfolding insert_commitments insert_set
extend_commitments sha256 set cs = elim (insert_commitments sha256 cs set) [
  | none ↦ none
  | some extended ↦ some (record extended {
    root_history = insert_set extended.root_history (MerkleTree.root extended.merkle_tree);
  })
]

-- `insert_program`
unfoldable pub insert_program : Option Program → HashMap Program → HashMap Program
insert_program none programs = programs
insert_program (some program) programs = HashMap.insert programs program.id program

unfoldable pub apply_state_diff : (Bytes → Bytes) → V03State → StateDiff → Option V03State
apply_state_diff sha256 s diff =
    elim (increment_nonces diff.signer_account_ids
      (write_accounts diff.public_diff s.public_state)) [
        | none ↦ none
        | some accounts ↦ elim (extend_commitments sha256 s.commitment_set diff.new_commitments) [
          | none ↦ none
          | some commitment_set ↦ some (record {
            public_state = accounts;
            commitment_set = commitment_set;
            nullifier_set = extend_set s.nullifier_set diff.new_nullifiers;
            programs = insert_program diff.program s.programs;
          })
        ]
      ]
