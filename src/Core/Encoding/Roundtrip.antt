-- ===== src/Core/Encoding/Roundtrip.antt =====
-- Reading back what was written.
use mathlib.Core.List.{append_assoc}
use lp_0002_private_multisig.Prelude.{
  ℕ, zero, suc, ◌/◌, ◌^◌, ◌≤◌, ◌<◌, ◌≡◌, refl, ap, sym, ◌∙◌, some, List, [], ◌∷◌, ◌++◌, Bytes,
  length, length-append, take-append_length, drop-append_length, u32_to_le_bytes, u32_mod,
  length-u32_to_le_bytes, u32_le_bytes_roundtrip, to_le_bytes, All, arith,
}
use lp_0002_private_multisig.Core.Account.{Account, data_max_length, u128_mod}
use lp_0002_private_multisig.Core.Commitments.{from_le_bytes}
use lp_0002_private_multisig.Core.Keys.{program_id_bytes}
use lp_0002_private_multisig.Core.Encoding.{
  account_to_bytes, read_exact, read_words, data_from_cursor, account_from_cursor,
}

pub length-to_le_bytes : (n v : ℕ) → length (to_le_bytes n v) ≡ n
unfolding to_le_bytes
length-to_le_bytes zero v = refl
length-to_le_bytes (suc n) v = ap suc (length-to_le_bytes n (v / 256))

pub le_bytes_roundtrip : (n v : ℕ) → v < 256 ^ n → from_le_bytes (to_le_bytes n v) ≡ v
unfolding to_le_bytes from_le_bytes
le_bytes_roundtrip zero v h = omega (arith, h)
le_bytes_roundtrip (suc n) v h = omega (arith, le_bytes_roundtrip n (v / 256) (omega (arith, h)))

pub read_exact-append :
    (n : ℕ) (xs rest : Bytes) → length xs ≡ n → read_exact n (xs ++ rest) ≡ some (xs, rest)
unfolding read_exact
read_exact-append n xs rest e =
    ground
      (arith, length-append xs rest, take-append_length n xs rest e, drop-append_length n xs rest e)

pub read_words-program_id_bytes :
    (words : List ℕ) (rest : Bytes)
    → All (λ w. w < u32_mod) words
    → read_words (length words) (program_id_bytes words ++ rest) ≡ some (words, rest)
unfolding read_words program_id_bytes
read_words-program_id_bytes [] rest h = refl
read_words-program_id_bytes (w ∷ words) rest h =
    rw
      (
        append_assoc (u32_to_le_bytes w) (program_id_bytes words) rest,
        read_exact-append 4 (u32_to_le_bytes w) (program_id_bytes words ++ rest)
            (length-u32_to_le_bytes w),
        read_words-program_id_bytes words rest h.1,
        u32_le_bytes_roundtrip w h.0,
      )
      refl

pub data_from_cursor-append :
    (xs rest : Bytes)
    → length xs ≤ data_max_length
    → data_from_cursor (u32_to_le_bytes (length xs) ++ (xs ++ rest)) ≡ some (xs, rest)
unfolding data_from_cursor
data_from_cursor-append xs rest h =
    rw
      (
        read_exact-append 4 (u32_to_le_bytes (length xs)) (xs ++ rest)
            (length-u32_to_le_bytes (length xs)),
        u32_le_bytes_roundtrip (length xs) (omega (arith, h)),
      )
      (ground (arith, read_exact-append (length xs) xs rest refl))

-- The ranges of the fields' types.
pub record IsAccount (a : Account) : Type 0 where
  pub owner_len : length a.program_owner ≡ 8
  pub owner_words : All (λ w. w < u32_mod) a.program_owner
  pub balance_u128 : a.balance < u128_mod
  pub nonce_u128 : a.nonce < u128_mod
  pub data_fits : length a.data_bytes ≤ data_max_length

account_to_bytes_right :
    (a : Account) (rest : Bytes)
    → account_to_bytes a ++ rest
      ≡ program_id_bytes a.program_owner
        ++ (to_le_bytes 16 a.balance
            ++ (to_le_bytes 16 a.nonce
                ++ (u32_to_le_bytes (length a.data_bytes) ++ (a.data_bytes ++ rest))))
unfolding account_to_bytes
account_to_bytes_right a rest = simp append_assoc

-- `Account::from_cursor` reads back the account that `Account::to_bytes` has written, if its fields are
-- in range, whatever follows it, and leaves what follows.
pub account_from_cursor-account_to_bytes :
    (a : Account) (rest : Bytes)
    → IsAccount a
    → account_from_cursor (account_to_bytes a ++ rest) ≡ some (a, rest)
unfolding account_from_cursor
account_from_cursor-account_to_bytes a rest h =
    let tail = u32_to_le_bytes (length a.data_bytes) ++ (a.data_bytes ++ rest) in
    let nonce = to_le_bytes 16 a.nonce in
    let balance = to_le_bytes 16 a.balance in
    rw
      (
        account_to_bytes_right a rest,
        (ap
              (λ (n : ℕ).
                read_words n (program_id_bytes a.program_owner ++ (balance ++ (nonce ++ tail))))
              (sym h.owner_len)
            ∙ read_words-program_id_bytes a.program_owner (balance ++ (nonce ++ tail))
                h.owner_words),
        read_exact-append 16 balance (nonce ++ tail) (length-to_le_bytes 16 a.balance),
        read_exact-append 16 nonce tail (length-to_le_bytes 16 a.nonce),
        data_from_cursor-append a.data_bytes rest h.data_fits,
        le_bytes_roundtrip 16 a.balance h.balance_u128,
        le_bytes_roundtrip 16 a.nonce h.nonce_u128,
      )
      refl
