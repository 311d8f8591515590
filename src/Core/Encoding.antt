-- ===== src/Core/Encoding.antt =====
-- The bytes of an account: lee/state_machine/core/src/encoding.rs and account/data.rs. A cursor is the
-- bytes that are left. `none` is an error of the reader.
pub mod Roundtrip
use lp_0002_private_multisig.Prelude.{
  ℕ, zero, suc, ◌*◌, Option, none, some, List, [], ◌∷◌, ◌++◌, Bytes, length, take, drop, leb, ltb,
  if◌then◌else◌, u32_to_le_bytes, u32_from_le_bytes, to_le_bytes,
}
use lp_0002_private_multisig.Core.Account.{Account, data_max_length}
use lp_0002_private_multisig.Core.Commitments.{from_le_bytes}
use lp_0002_private_multisig.Core.Keys.{program_id_bytes}

-- `Account::to_bytes`
unfoldable pub account_to_bytes : Account → Bytes
account_to_bytes a =
    program_id_bytes a.program_owner
    ++ (to_le_bytes 16 a.balance
        ++ (to_le_bytes 16 a.nonce ++ (u32_to_le_bytes (length a.data_bytes) ++ a.data_bytes)))

-- What a reader returns: a value and the bytes that are left.
abbrev pub Read : Type 0 → Type 0
Read A = Option (A × Bytes)

infixl 5 ◌then_read◌
abbrev pub ◌then_read◌ : {A B : Type 0} → Read A → (A → Bytes → Read B) → Read B
none then_read k = none
(some (value, left)) then_read k = k value left

-- `read_exact`
unfoldable pub read_exact : ℕ → Bytes → Read Bytes
read_exact n bytes = if leb n (length bytes) then some (take n bytes, drop n bytes) else none

-- The loop that reads the program owner.
unfoldable pub read_words : ℕ → Bytes → Read (List ℕ)
unfolding read_exact
read_words zero bytes = some ([], bytes)
read_words (suc count) bytes = read_exact 4 bytes then_read λ word left.
    read_words count left then_read λ words rest. some (u32_from_le_bytes word ∷ words, rest)

-- `Data::from_cursor`
unfoldable pub data_from_cursor : Bytes → Read Bytes
unfolding read_exact
data_from_cursor bytes = read_exact 4 bytes then_read λ count left.
    if ltb data_max_length (u32_from_le_bytes count)
    then none
    else read_exact (u32_from_le_bytes count) left

-- `Account::from_cursor`
unfoldable pub account_from_cursor : Bytes → Read Account
unfolding read_exact read_words data_from_cursor
account_from_cursor bytes = read_words 8 bytes then_read λ program_owner left.
    read_exact 16 left then_read λ balance left'. read_exact 16 left' then_read λ nonce left''.
    data_from_cursor left'' then_read λ data_bytes rest. some (
      record {
        program_owner = program_owner;
        balance = from_le_bytes balance;
        data_bytes = data_bytes;
        nonce = from_le_bytes nonce;
      },
      rest,
    )
