-- ===== src/State/Public/Replay.antt =====
-- A public transaction that is signed cannot be applied twice: its nonces are used up.
use lp_0002_private_multisig.Prelude.{
  ℕ, ◌≤◌, ◌<◌, ◌≡◌, refl, ap, sym, ◌∙◌, ◌+◌, some, true, List, [], ◌∷◌, Bytes, bytes_eq_iff,
  bytes_eq_refl, contains, IsDistinct, arith, ok, err, Option-cases, inl, inr, length,
}
use lp_0002_private_multisig.Prelude.HashMap
use lp_0002_private_multisig.Prelude.HashMap.{HashMap}
use lp_0002_private_multisig.Core.Account.{AccountId, Account}
use lp_0002_private_multisig.State.Types.{
  LeeError, InvalidInput, invalid_input, V03State, StateDiff, PublicTransaction, Host,
  lookup_account, signer_account_ids, public_account_id, all_valid,
}
use lp_0002_private_multisig.State.Apply.{write_accounts, increment_nonces, apply_state_diff}
use lp_0002_private_multisig.State.Public.{from_public_transaction}
use lp_0002_private_multisig.State.Checks.{
  expected_pre, check_nonces, authenticate_public_transaction_signers,
}
use lp_0002_private_multisig.State.Totals.{keys, lookup_account-insert, increment_step}
use lp_0002_private_multisig.State.Public.Round.{DecodesBalances, IsSound}
use lp_0002_private_multisig.State.Public.Conservation.{
  from_public_transaction_inv, validated-IsSound,
}

contains-keys :
    (diff : HashMap Account) (id : AccountId)
    → contains (keys diff) id ≡ HashMap.contains_key diff id
unfolding contains HashMap.get
contains-keys [] id = refl
contains-keys ((k, v) ∷ diff) id =
    ground (arith, contains-keys diff id, bytes_eq_iff k id, bytes_eq_iff id k)

-- What an account is after a diff with distinct keys is written.
pub lookup_account-write_accounts :
    (diff m : HashMap Account) (id : AccountId)
    → IsDistinct (keys diff)
    → lookup_account (write_accounts diff m) id ≡ expected_pre m diff id
unfolding write_accounts HashMap.get
lookup_account-write_accounts [] m id h = refl
lookup_account-write_accounts ((k, v) ∷ diff) m id h = ground (
  arith,
  lookup_account-write_accounts diff (HashMap.insert m k v) id h.1,
  lookup_account-insert m k id v,
  contains-keys diff id,
  bytes_eq_iff k id,
  h.0,
)

-- No nonce goes down.
nonce_le-increment_nonces :
    (ids : List AccountId) (m : HashMap Account) (j : AccountId) {m' : HashMap Account}
    → increment_nonces ids m ≡ some m'
    → (lookup_account m j).nonce ≤ (lookup_account m' j).nonce
unfolding increment_nonces
nonce_le-increment_nonces [] m j h = ground arith
nonce_le-increment_nonces (id ∷ ids) m j h =
    let a = record (lookup_account m id) { nonce = (lookup_account m id).nonce + 1 } in
    ground (
      arith,
      nonce_le-increment_nonces ids (HashMap.insert m id a) j (increment_step id ids m h),
      lookup_account-insert m id j a,
      bytes_eq_iff id j,
    )

-- The first signer's nonce goes up.
nonce_lt-increment_nonces :
    (id : AccountId) (ids : List AccountId) (m : HashMap Account) {m' : HashMap Account}
    → increment_nonces (id ∷ ids) m ≡ some m'
    → (lookup_account m id).nonce < (lookup_account m' id).nonce
nonce_lt-increment_nonces id ids m h =
    let a = record (lookup_account m id) { nonce = (lookup_account m id).nonce + 1 } in
    ground (
      arith,
      nonce_le-increment_nonces ids (HashMap.insert m id a) id (increment_step id ids m h),
      lookup_account-insert m id id a,
      bytes_eq_refl id,
    )

abbrev mismatch : LeeError
mismatch = invalid_input InvalidInput.nonce_mismatch

-- The nonces that fit once do not fit when the first account's nonce has gone up.
check_nonces_again :
    (accounts accounts' : HashMap Account) (id : AccountId) (ids : List AccountId) (nonces : List ℕ)
    → 0 < length nonces
    → check_nonces accounts (id ∷ ids) nonces ≡ ok tt
    → (lookup_account accounts id).nonce < (lookup_account accounts' id).nonce
    → check_nonces accounts' (id ∷ ids) nonces ≡ err mismatch
unfolding check_nonces
check_nonces_again accounts accounts' id ids [] some_nonce h up = absurd (omega (arith, some_nonce))
check_nonces_again accounts accounts' id ids (n ∷ ns) some_nonce h up = ground arith

module _ (host : Host) (tx : PublicTransaction) where
  abbrev signers_of : List AccountId
  signers_of = signer_account_ids host.sha256 tx.witness_set.signatures_and_public_keys

  -- What the signers have shown.
  abbrev Authenticated : V03State → Type 0
  Authenticated state =
      (length tx.message.nonces ≡ length tx.witness_set.signatures_and_public_keys)
      × (all_valid host.signature_is_valid (host.message_hash tx.message)
            tx.witness_set.signatures_and_public_keys
          ≡ true)
      × (check_nonces state.public_state signers_of tx.message.nonces ≡ ok tt)

  authenticate_inv :
      (state : V03State) {signers : List AccountId}
      → authenticate_public_transaction_signers host tx state ≡ ok signers
      → Authenticated state × (signers ≡ signers_of)
  unfolding authenticate_public_transaction_signers
  authenticate_inv state h = ground arith

  authenticate_again :
      (state state' : V03State)
      → Authenticated state
      → check_nonces state'.public_state signers_of tx.message.nonces ≡ err mismatch
      → authenticate_public_transaction_signers host tx state' ≡ err mismatch
  unfolding authenticate_public_transaction_signers
  authenticate_again state state' a h = ground arith

  from_public_transaction_again :
      (state : V03State) (block_id timestamp : ℕ)
      → authenticate_public_transaction_signers host tx state ≡ err mismatch
      → from_public_transaction host state block_id timestamp tx ≡ err mismatch
  unfolding from_public_transaction
  from_public_transaction_again state block_id timestamp h = ground arith

  -- A validated diff that is applied raises the nonce of the first signer.
  nonce_lt-apply_state_diff :
      (state : V03State) {state' : V03State} (diff : StateDiff) (id : AccountId)
      (ids : List AccountId)
      → IsSound state.public_state diff.public_diff
      → diff.signer_account_ids ≡ id ∷ ids
      → apply_state_diff host.sha256 state diff ≡ some state'
      → (lookup_account state.public_state id).nonce < (lookup_account state'.public_state id).nonce
  unfolding apply_state_diff
  nonce_lt-apply_state_diff state {state'} diff id ids sound first applied =
      let written = write_accounts diff.public_diff state.public_state in
      elim (Option-cases (increment_nonces diff.signer_account_ids written)) [
        | inl overflow ↦ absurd (ground arith)
        | inr (accounts, e) ↦
            let same : state'.public_state ≡ accounts = ground arith in
            let e' : increment_nonces (id ∷ ids) written ≡ some accounts = rw first at e in
            omega (
              arith,
              ap (λ (m : HashMap Account). (lookup_account m id).nonce) same,
              nonce_lt-increment_nonces id ids written e',
              ap (λ (t : Account). t.nonce)
                  (lookup_account-write_accounts diff.public_diff state.public_state id
                    sound.distinct),
              sound.nonces id,
            )
      ]

  -- After a public transaction with a signer has been validated and its diff applied, validating it
  -- again, in any block and at any time, fails with a nonce mismatch.
  pub replay_rejected :
      (state : V03State) {state' : V03State} {diff : StateDiff}
      (block_id timestamp block_id' timestamp' : ℕ) (witness : Bytes × Bytes)
      (rest : List (Bytes × Bytes))
      → DecodesBalances host
      → tx.witness_set.signatures_and_public_keys ≡ witness ∷ rest
      → from_public_transaction host state block_id timestamp tx ≡ ok diff
      → apply_state_diff host.sha256 state diff ≡ some state'
      → from_public_transaction host state' block_id' timestamp' tx
        ≡ err (invalid_input InvalidInput.nonce_mismatch)
  unfolding signer_account_ids
  replay_rejected state {state'} {diff} block_id timestamp block_id' timestamp' witness rest decodes
        signed validated applied =
      let sound = validated-IsSound host state block_id timestamp tx decodes validated in
      let valid = from_public_transaction_inv host state block_id timestamp tx validated in
      let (a, same) = authenticate_inv state valid.authenticated in
      let id = public_account_id host.sha256 witness.1 in
      let ids = signer_account_ids host.sha256 rest in
      let head : signers_of ≡ id ∷ ids = ap (signer_account_ids host.sha256) signed in
      let up = nonce_lt-apply_state_diff state diff id ids sound (same ∙ head) applied in
      let checked : check_nonces state.public_state (id ∷ ids) tx.message.nonces ≡ ok tt =
        rw head at a.2 in
      let count : 0 < length tx.message.nonces =
        omega (arith, a.0, ap (λ (l : List (Bytes × Bytes)). length l) signed) in
      let again =
        check_nonces_again state.public_state state'.public_state id ids tx.message.nonces count
          checked up in
      let again' : check_nonces state'.public_state signers_of tx.message.nonces ≡ err mismatch =
        rw (sym head) at again in
      from_public_transaction_again state' block_id' timestamp'
        (authenticate_again state state' a again')
