-- ===== src/Lib.antt =====
-- Verification of the private multisig and of the part of the LEE state machine that runs it.
--
-- The program. A multisig's members publish a leaf each, the hash of a secret, in a registry account.
-- A proposal account freezes the Merkle root of the leaves. A member approves by a private execution
-- that shows a path from the leaf of its secret to that root, and leaves a nullifier that is bound to
-- the proposal in the account's data. With enough approvals `execute` makes a chained call to the
-- transfer program, which moves the treasury. The state machine runs such programs: it validates the
-- output of every call of a transaction and then applies one diff to the state. A private execution is
-- proved by the privacy preserving circuit, which checks the outputs of the same programs, and commits
-- nullifiers, commitments and encrypted notes in the place of the private accounts.
--
-- The files. Paths are from the repository's root.
--   Prelude        lists, options, results, byte arrays and hash maps; arithmetic is on native numbers
--   Msig/Scheme    lez/programs/msig/core/src/lib.rs: `hash_pair`, `member_leaf`, `vote_nullifier`,
--                  `merkle_root`, `merkle_path`, `root_from_path`
--   Msig/Guest     lee/state_machine/test_methods/guest/src/bin/msig.rs: `create_proposal`, `enroll`,
--                  `approve`, `execute`, `init_treasury` are `create_proposal_post`, `enroll_post`,
--                  `approve_post`, `execute_calls`, `init_treasury_calls`; `main`
--   Msig/Merkle, Msig/Layout, Msig/Proposal, Msig/Registry, Msig/Treasury
--                  the paths of the tree, the bytes of the two accounts, an abstract proposal and the
--                  sequences of its votes, the registry, the release
--   Core/Account   lee/state_machine/core/src/account.rs and account/data.rs
--   Core/Keys      lee/state_machine/core/src/nullifier.rs, and the PDAs of program/mod.rs there
--   Core/Program, Core/Balances, Core/Validation
--                  lee/state_machine/core/src/program/mod.rs: inputs and outputs of programs,
--                  `WrappedBalanceSum`, `validate_execution`
--   Core/Commitments, Core/Encryption, Core/Encoding, Core/Circuit
--                  lee/state_machine/core/src/commitment.rs and nullifier.rs; encryption/mod.rs and
--                  the header of program/mod.rs; encoding.rs; circuit_io.rs
--   AuthenticatedTransfer, AuthenticatedTransfer/Conformance
--                  lez/programs/authenticated_transfer/src/main.rs and its core
--   Token/Types, Token/Holdings, Token
--                  lez/programs/token: the data of core/src/lib.rs, the matches on definitions and
--                  holdings, the seven instructions with `run_token_instruction` for the match of
--                  `main`; Token/Supply, Token/Accounting and Token/Conservation count their units
--   Amm/Pool, Amm/Swap, Amm/Liquidity, Amm/Creation, Amm/Instructions
--                  lez/programs/amm: core/src/lib.rs; src/swap.rs, whose two swaps share `swap_at` and
--                  differ in the price; add.rs and remove.rs; new_definition.rs; main.rs
--   MerkleTree     lee/state_machine/src/merkle_tree/mod.rs and default_values.rs; in the modules
--                  below it the nodes are numbered from 1, so that the children of place m are 2 * m
--                  and 2 * m + 1: Ancestors and Updates have the nodes above a leaf, Leaves and
--                  Insertion `insert`, Moves and Doubling `reallocate_to_double_capacity`, Growth the
--                  empty tree, Paths and Membership `get_authentication_path_for`
--   State/Types, State/Apply
--                  lee/state_machine/src/state/mod.rs, error.rs, public_transaction/ and the program
--                  of program/mod.rs; `apply_state_diff`
--   State/Public   `from_public_transaction` of lee/state_machine/src/validated_state_diff/mod.rs; its
--                  loop is `run_calls`, with `process_call` for one round; its checks on signers,
--                  pre states and claims are in State/Checks
--   State/Private  the other two transactions of that file
--   State/Genesis, State/Indexed, State/Membership
--                  `V03State::default`, the builders `with_*`, `CommitmentSet::with_capacity` (here
--                  `empty_commitments`), `digest` and `get_proof_for`
--   State/History  the transitions of state/mod.rs, and sequences of them
--   Circuit/Bindings, Circuit/Sync, Circuit/Execution
--                  lee/privacy_preserving_circuit/src/execution_state.rs: `derive_from_outputs`, with
--                  `run_outputs` for its loop and `sync_one` for a round of
--                  `validate_and_sync_states`; what it does to balances is in Circuit/Sync/Moves
--   Circuit/Emit, Circuit/Obfuscation, Circuit/Output
--                  output.rs there: `compute_circuit_output`, with `emit_account` for the body of its
--                  loop; `circuit_main` is `main` of main.rs
--   Chain/Types, Chain/Transactions
--                  lez/common/src/block.rs and transaction.rs; Chain/Transactions/Guards is about the
--                  checks on the system accounts of lez/system_accounts
--   Chain/Blocks, Chain/Tiers, Chain/Head, Chain/Finality
--                  lez/chain_state/src: `apply_block` of apply.rs, with `apply_transactions` for its
--                  loop; `ChainState` of chain.rs, with `replay` for its two replays, `adopt` and
--                  `extend_head` for parts of `apply_adopted`, `truncate_head` for `rederive_head` after
--                  a cut. Chain/Events has sequences of its operations
--   State/Totals   the total of all balances
--   Witnesses      the theorems at concrete inputs, with a small digest in the place of SHA-256
--
-- How the code is written here. Account fields, byte arrays and u128 values are lists and numbers; a
-- u32 that the code can wrap keeps its `% 2^32`. A guest's panic is an error value. A hash map is an
-- association list with an insertion that replaces, a hash set a list. `data` is called `data_bytes`.
-- A panic of the state machine is `none`, also that of `MerkleTree::with_capacity` above 2^31 places,
-- where its table has no default value for the depth; in Chain a panic is `panicked` beside the code's
-- own errors, and `Panic` where these are outcomes. Error values keep the constructor and the account
-- they name; fields that only repeat two compared values are left out.
--
-- Bounds and fuel. `run_calls` counts down from `MAX_NUMBER_CHAINED_CALLS + 1`, so that its fuel is the
-- source's own guard and running out is the source's error; `run_outputs` of the circuit does the same.
-- The two doublings of MerkleTree have as many rounds as the number they reach, and `climb_path` as many
-- as a node's index, which every round halves. `isqrt_within` quarters a u128 64 times. Everything else
-- is structural recursion.
--
-- Parameters. SHA-256 is a function on bytes; where a theorem needs it, the hypothesis says that digests
-- have 32 bytes. The zkVM that runs an ELF, the hash of a message and Schnorr verification are fields of
-- `Host`; the hypothesis on a host is that a journal's balances are u128 values. `PrivacyHost` has the
-- check of a receipt and the image id of an ELF, `CircuitHost` the verification of a program's output and
-- ML-KEM. `ChainHost` adds the bytes of a block, its signatures and the ids of the built programs. The
-- ChaCha20 keystream is a function of a key and a buffer; the hypotheses on it are that it
-- keeps lengths and undoes itself. The derived borsh encodings of the token program are the fields of
-- `Codec`, those of pools fields of `AmmHost`; the hypothesis on them is that they read back what they
-- have written. The risc0 serializer is `to_vec`. The sort of the circuit's output is an insertion
-- sort, which fixes an order where the source's unstable sort leaves it open.
--
-- Not modelled: the wallet, the sequencer, the indexer and the services, which are asynchronous code over
-- files and a network; the derived encodings of borsh and serde; and the programs other than the
-- multisig, the authenticated transfer, the token and the market maker.
pub mod Prelude
pub mod Core
pub mod AuthenticatedTransfer
pub mod Msig
pub mod MerkleTree
pub mod State
pub mod Circuit
pub mod Token
pub mod Amm
pub mod Witnesses
pub mod Chain
