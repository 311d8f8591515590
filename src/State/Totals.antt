-- ===== src/State/Totals.antt =====
-- The total of the balances of a map of accounts, under one write and under a whole diff.
use lp_0002_private_multisig.Prelude.{
  ℕ, ◌+◌, ◌≡◌, refl, false, some, List, [], ◌∷◌, bytes_eq, bytes_eq_iff, contains, IsDistinct,
  if◌then◌else◌, arith,
}
use lp_0002_private_multisig.Prelude.HashMap
use lp_0002_private_multisig.Prelude.HashMap.{HashMap, get-insert}
use lp_0002_private_multisig.Core.Account.{AccountId, Account, public_account_nonce_increment}
use lp_0002_private_multisig.State.Types.{lookup_account}
use lp_0002_private_multisig.State.Apply.{write_accounts, increment_nonces}

-- The sum of all balances of a map.
unfoldable pub total_balance : HashMap Account → ℕ
total_balance [] = 0
total_balance ((id, a) ∷ m) = a.balance + total_balance m

abbrev pub keys : HashMap Account → List AccountId
keys [] = []
keys ((id, a) ∷ m) = id ∷ keys m

pub lookup_account-insert :
    (m : HashMap Account) (k j : AccountId) (v : Account)
    → lookup_account (HashMap.insert m k v) j ≡ (if bytes_eq k j then v else lookup_account m j)
unfolding lookup_account
lookup_account-insert m k j v = ground (arith, get-insert m k j v)

-- A write changes the total by what it changes the one balance.
pub total_balance-insert :
    (m : HashMap Account) (k : AccountId) (v : Account)
    → total_balance (HashMap.insert m k v) + (lookup_account m k).balance
      ≡ total_balance m + v.balance
unfolding total_balance lookup_account HashMap.insert HashMap.get
total_balance-insert [] k v = omega arith
total_balance-insert ((j, w) ∷ m) k v = ground (arith, total_balance-insert m k v)

-- The balances that the entries of a diff replace.
unfoldable pub replaced : HashMap Account → HashMap Account → ℕ
replaced accounts [] = 0
replaced accounts ((id, a) ∷ diff) = (lookup_account accounts id).balance + replaced accounts diff

replaced-insert :
    (accounts diff : HashMap Account) (k : AccountId) (v : Account)
    → contains (keys diff) k ≡ false
    → replaced (HashMap.insert accounts k v) diff ≡ replaced accounts diff
unfolding replaced contains
replaced-insert accounts [] k v h = refl
replaced-insert accounts ((j, w) ∷ diff) k v h = ground (
  arith,
  lookup_account-insert accounts k j v,
  bytes_eq_iff k j,
  bytes_eq_iff j k,
  replaced-insert accounts diff k v,
)

-- Writing a diff with distinct keys.
pub total_balance-write_accounts :
    (diff accounts : HashMap Account)
    → IsDistinct (keys diff)
    → total_balance (write_accounts diff accounts) + replaced accounts diff
      ≡ total_balance accounts + total_balance diff
unfolding write_accounts replaced total_balance
total_balance-write_accounts [] accounts h = refl
total_balance-write_accounts ((k, v) ∷ diff) accounts h = omega (
  arith,
  total_balance-write_accounts diff (HashMap.insert accounts k v) h.1,
  total_balance-insert accounts k v,
  replaced-insert accounts diff k v h.0,
)

-- One signer: its nonce goes up by one, and the loop goes on.
pub increment_step :
    (id : AccountId) (ids : List AccountId) (m : HashMap Account) {m' : HashMap Account}
    → increment_nonces (id ∷ ids) m ≡ some m'
    → increment_nonces ids (
        HashMap.insert m id
          (record (lookup_account m id) { nonce = (lookup_account m id).nonce + 1 }))
      ≡ some m'
unfolding increment_nonces public_account_nonce_increment
increment_step id ids m h = ground arith

-- Incrementing nonces moves no balance.
pub total_balance-increment_nonces :
    (ids : List AccountId) (m : HashMap Account) {m' : HashMap Account}
    → increment_nonces ids m ≡ some m'
    → total_balance m' ≡ total_balance m
unfolding increment_nonces
total_balance-increment_nonces [] m h = ground arith
total_balance-increment_nonces (id ∷ ids) m h =
    let a = record (lookup_account m id) { nonce = (lookup_account m id).nonce + 1 } in
    omega (
      arith,
      total_balance-increment_nonces ids (HashMap.insert m id a) (increment_step id ids m h),
      total_balance-insert m id a,
    )
