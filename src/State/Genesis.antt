-- ===== src/State/Genesis.antt =====
-- The empty state and what a node seeds it with, and the proofs of membership that a state gives out:
-- `CommitmentSet` and the builders of `V03State` in lee/state_machine/src/state/mod.rs, and
-- `DUMMY_COMMITMENT` of lee/state_machine/core/src/commitment.rs.
use lp_0002_private_multisig.Prelude.{ℕ, Option, none, some, List, [], ◌∷◌, Bytes}
use lp_0002_private_multisig.Prelude.HashMap
use lp_0002_private_multisig.Prelude.HashMap.{HashMap}
use lp_0002_private_multisig.Core.Account.{AccountId, Account, default_account}
use lp_0002_private_multisig.Core.Commitments.{
  Commitment, Nullifier, CommitmentSetDigest, MembershipProof,
}
use lp_0002_private_multisig.MerkleTree
use lp_0002_private_multisig.State.Types.{Program, CommitmentSet, V03State}
use lp_0002_private_multisig.State.Apply.{extend_set, extend_commitments}

abbrev pub dummy_commitment : Commitment
dummy_commitment =
    55 ∷ 228 ∷ 215 ∷ 207 ∷ 112 ∷ 221 ∷ 239 ∷ 49 ∷ 238 ∷ 79 ∷ 71 ∷ 135 ∷ 155 ∷ 15 ∷ 184 ∷ 45 ∷ 104
    ∷ 74 ∷ 51 ∷ 211 ∷ 238 ∷ 42 ∷ 160 ∷ 243 ∷ 15 ∷ 124 ∷ 253 ∷ 62 ∷ 3 ∷ 229 ∷ 90 ∷ 27 ∷ []

-- `CommitmentSet::digest`
unfoldable pub digest : CommitmentSet → CommitmentSetDigest
digest set = MerkleTree.root set.merkle_tree

-- `CommitmentSet::get_proof_for`: the index with the path.
unfoldable pub get_proof_for : CommitmentSet → Commitment → Option MembershipProof
get_proof_for set commitment = elim (HashMap.get set.commitments commitment) [
  | none ↦ none
  | some index ↦ elim (MerkleTree.get_authentication_path_for set.merkle_tree index) [
    | none ↦ none
    | some path ↦ some (index, path)
  ]
]

-- `CommitmentSet::with_capacity`; `none` where the tree panics.
unfoldable pub empty_commitments : ℕ → Option CommitmentSet
empty_commitments capacity = elim (MerkleTree.with_capacity capacity) [
  | none ↦ none
  | some tree ↦ some (record { merkle_tree = tree; commitments = []; root_history = [] })
]

-- `HashMap::extend` of the public accounts.
unfoldable pub extend_accounts : HashMap Account → List (AccountId × Account) → HashMap Account
extend_accounts m [] = m
extend_accounts m ((id, account) ∷ rest) = extend_accounts (HashMap.insert m id account) rest

unfoldable pub account_with_balance : AccountId × ℕ → AccountId × Account
account_with_balance (id, balance) = (id, record default_account { balance = balance })

unfoldable pub accounts_with_balances : List (AccountId × ℕ) → List (AccountId × Account)
unfolding account_with_balance
accounts_with_balances [] = []
accounts_with_balances (b ∷ balances) = account_with_balance b ∷ accounts_with_balances balances

-- `with_public_account_balances`
unfoldable pub with_public_account_balances : V03State → List (AccountId × ℕ) → V03State
unfolding extend_accounts accounts_with_balances
with_public_account_balances s balances = record s {
  public_state = extend_accounts s.public_state (accounts_with_balances balances);
}

-- `with_public_accounts`
unfoldable pub with_public_accounts : V03State → List (AccountId × Account) → V03State
unfolding extend_accounts
with_public_accounts s accounts = record s {
  public_state = extend_accounts s.public_state accounts;
}

-- `force_insert_account`
unfoldable pub force_insert_account : V03State → AccountId → Account → V03State
force_insert_account s id account = record s {
  public_state = HashMap.insert s.public_state id account;
}

-- `Iterator::unzip`
unfoldable pub unzip : List (Commitment × Nullifier) → List Commitment × List Nullifier
unzip [] = ([], [])
unzip ((commitment, nullifier) ∷ rest) =
    let (commitments, nullifiers) = unzip rest in (commitment ∷ commitments, nullifier ∷ nullifiers)

-- `with_programs`
unfoldable pub insert_programs : HashMap Program → List Program → HashMap Program
insert_programs m [] = m
insert_programs m (program ∷ programs) =
    insert_programs (HashMap.insert m program.id program) programs

unfoldable pub with_programs : V03State → List Program → V03State
unfolding insert_programs
with_programs s programs = record s { programs = insert_programs s.programs programs }

module _ (sha256 : Bytes → Bytes) where
  -- `CommitmentSet::with_capacity` and `extend`, as `V03State::default` calls them.
  unfoldable pub first_commitments : Option CommitmentSet
  unfolding empty_commitments
  first_commitments = elim (empty_commitments 32) [
    | none ↦ none
    | some set ↦ extend_commitments sha256 set (dummy_commitment ∷ [])
  ]

  -- `V03State::default`, which `V03State::new` returns.
  unfoldable pub default_state : Option V03State
  unfolding first_commitments
  default_state = elim first_commitments [
    | none ↦ none
    | some commitment_set ↦ some (record {
      public_state = [];
      commitment_set = commitment_set;
      nullifier_set = [];
      programs = [];
    })
  ]

  -- `with_private_accounts`
  unfoldable pub with_private_accounts : V03State → List (Commitment × Nullifier) → Option V03State
  unfolding unzip
  with_private_accounts s private_accounts =
      let (commitments, nullifiers) = unzip private_accounts in
      elim (extend_commitments sha256 s.commitment_set commitments) [
        | none ↦ none
        | some commitment_set ↦ some (record s {
          commitment_set = commitment_set;
          nullifier_set = extend_set s.nullifier_set nullifiers;
        })
      ]
