-- ===== src/Core/Encryption.antt =====
-- The encrypted notes: lee/state_machine/core/src/encryption/mod.rs, and `PrivateAccountKind` of
-- program/mod.rs with the layout that its doc comment gives. Parameters: SHA-256, and the ChaCha20
-- keystream of a key at the nonce zero, applied to a buffer.
pub mod Notes
use lp_0002_private_multisig.Prelude.{
  ℕ, ◌-◌, Option, none, some, List, [], ◌∷◌, ◌++◌, Bytes, codes, replicate, length, take, drop, ltb,
  ◌==◌, if◌then◌else◌, to_le_bytes,
}
use lp_0002_private_multisig.Core.Account.{Account, AccountId}
use lp_0002_private_multisig.Core.Circuit.{PrivateAccountKind, regular, pda_kind}
use lp_0002_private_multisig.Core.Commitments.{Nullifier, from_le_bytes}
use lp_0002_private_multisig.Core.Encoding.{
  account_to_bytes, account_from_cursor, Read, ◌then_read◌, read_exact, read_words,
}
use lp_0002_private_multisig.Core.Keys.{program_id_bytes}

-- `HEADER_LEN`
abbrev pub header_len : ℕ
header_len = 81

-- The borsh bytes of a kind.
unfoldable pub serialize_kind : PrivateAccountKind → Bytes
serialize_kind (regular identifier) = 0 ∷ to_le_bytes 16 identifier
serialize_kind (pda_kind program_id seed identifier) =
    1 ∷ (program_id_bytes program_id ++ (seed ++ to_le_bytes 16 identifier))

-- `to_header_bytes`: the rest of the array stays zero.
unfoldable pub to_header_bytes : PrivateAccountKind → Bytes
to_header_bytes kind =
    serialize_kind kind ++ replicate (header_len - length (serialize_kind kind)) 0

-- `from_header_bytes`
unfoldable pub from_header_bytes : Bytes → Option PrivateAccountKind
unfolding read_exact read_words
from_header_bytes [] = none
from_header_bytes (tag ∷ bytes) =
    if tag == 0
    then (elim (read_exact 16 bytes) [
      | none ↦ none
      | some (identifier, _) ↦ some (regular (from_le_bytes identifier))
    ])
    else if tag == 1
    then (elim (read_words 8 bytes then_read λ program_id left.
        read_exact 32 left then_read λ seed left'. read_exact 16 left' then_read λ identifier rest.
        some (pda_kind program_id seed (from_le_bytes identifier), rest)) [
          | none ↦ none
          | some (kind, _) ↦ some kind
        ])
    else none

module _ (sha256 : Bytes → Bytes) where
  -- `EphemeralSecretKey::new`
  unfoldable pub ephemeral_secret_key : AccountId → (random_seed : Bytes) (nonce : ℕ) → Bytes
  ephemeral_secret_key account_id random_seed nonce =
      sha256 (codes "/LEE/v0.3/esk/" ++ account_id ++ random_seed ++ to_le_bytes 16 nonce)

  -- `EncryptionScheme::kdf`
  unfoldable pub kdf : (shared_secret : Bytes) → Nullifier → Bytes
  kdf shared_secret nullifier = sha256 (codes "LEE/v0.3/KDF-SHA256/" ++ shared_secret ++ nullifier)

  module _ (apply_keystream : Bytes → Bytes → Bytes) where
    unfoldable pub symmetric_transform : Bytes → (shared_secret : Bytes) → Nullifier → Bytes
    symmetric_transform buffer shared_secret nullifier =
        apply_keystream (kdf shared_secret nullifier) buffer

    -- `EncryptionScheme::encrypt`
    unfoldable pub encrypt :
        Account → PrivateAccountKind → (shared_secret : Bytes) → Nullifier → Bytes
    unfolding symmetric_transform
    encrypt account kind shared_secret nullifier =
        symmetric_transform (to_header_bytes kind ++ account_to_bytes account) shared_secret
          nullifier

    -- `EncryptionScheme::decrypt`
    unfoldable pub decrypt :
        Bytes → (shared_secret : Bytes) → Nullifier → Option (PrivateAccountKind × Account)
    unfolding symmetric_transform
    decrypt ciphertext shared_secret nullifier =
        let buffer = symmetric_transform ciphertext shared_secret nullifier in
        if ltb (length buffer) header_len
        then none
        else (elim (from_header_bytes (take header_len buffer)) [
          | none ↦ none
          | some kind ↦ elim (account_from_cursor (drop header_len buffer)) [
            | none ↦ none
            | some (account, _) ↦ some (kind, account)
          ]
        ])
