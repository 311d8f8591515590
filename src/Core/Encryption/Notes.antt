-- ===== src/Core/Encryption/Notes.antt =====
-- A note can be read by who knows its secret, and does not tell its kind by its length.
use mathlib.Core.List.{append_assoc, append-nil}
use lp_0002_private_multisig.Prelude.{
  ℕ, ◌-◌, ◌<◌, ◌≡◌, refl, ap, sym, ◌∙◌, some, [], ◌∷◌, ◌++◌, Bytes, replicate, length,
  length-append, length-replicate, take-append_length, drop-append_length, to_le_bytes, u32_mod,
  length-u32_to_le_bytes, All, arith, suc, ◌*◌, u32_to_le_bytes,
}
use lp_0002_private_multisig.Core.Account.{Account, u128_mod, ProgramId}
use lp_0002_private_multisig.Core.Circuit.{PrivateAccountKind, regular, pda_kind}
use lp_0002_private_multisig.Core.Commitments.{Nullifier}
use lp_0002_private_multisig.Core.Encoding.{account_to_bytes, account_from_cursor, read_words}
use lp_0002_private_multisig.Core.Encoding.Roundtrip.{
  length-to_le_bytes, le_bytes_roundtrip, read_exact-append, read_words-program_id_bytes, IsAccount,
  account_from_cursor-account_to_bytes,
}
use lp_0002_private_multisig.Core.Encryption.{
  serialize_kind, to_header_bytes, from_header_bytes, kdf, symmetric_transform, encrypt, decrypt,
}
use lp_0002_private_multisig.Core.Keys.{program_id_bytes}

-- The ranges of a kind's fields.
abbrev pub IsKind : PrivateAccountKind → Type 0
IsKind (regular identifier) = identifier < u128_mod
IsKind (pda_kind program_id seed identifier) =
    (length program_id ≡ 8)
    × All (λ w. w < u32_mod) program_id
    × (length seed ≡ 32)
    × (identifier < u128_mod)

length-program_id_bytes : (words : ProgramId) → length (program_id_bytes words) ≡ 4 * length words
unfolding program_id_bytes
length-program_id_bytes [] = refl
length-program_id_bytes (w ∷ ws) = omega (
  arith,
  length-append (u32_to_le_bytes w) (program_id_bytes ws),
  length-u32_to_le_bytes w,
  length-program_id_bytes ws,
)

length-to_header_bytes :
    (kind : PrivateAccountKind) → IsKind kind → length (to_header_bytes kind) ≡ 81
unfolding to_header_bytes serialize_kind
length-to_header_bytes (regular i) h = omega (
  arith,
  length-append (to_le_bytes 16 i) (replicate (81 - suc (length (to_le_bytes 16 i))) 0),
  length-replicate {A = ℕ} (81 - suc (length (to_le_bytes 16 i))) 0,
  length-to_le_bytes 16 i,
)
length-to_header_bytes (pda_kind p s i) h =
    let body = program_id_bytes p ++ (s ++ to_le_bytes 16 i) in
    omega (
      arith,
      length-append body (replicate (81 - suc (length body)) 0),
      length-replicate {A = ℕ} (81 - suc (length body)) 0,
      length-append (program_id_bytes p) (s ++ to_le_bytes 16 i),
      length-append s (to_le_bytes 16 i),
      length-to_le_bytes 16 i,
      length-program_id_bytes p,
      h.0,
      h.2,
    )

from_header_bytes-to_header_bytes :
    (kind : PrivateAccountKind) → IsKind kind → from_header_bytes (to_header_bytes kind) ≡ some kind
unfolding to_header_bytes serialize_kind from_header_bytes
from_header_bytes-to_header_bytes (regular i) h =
    rw
      (
        read_exact-append 16 (to_le_bytes 16 i) (replicate (81 - suc (length (to_le_bytes 16 i))) 0)
            (length-to_le_bytes 16 i),
        le_bytes_roundtrip 16 i h,
      )
      refl
from_header_bytes-to_header_bytes (pda_kind p s i) h =
    let ident = to_le_bytes 16 i in
    let pad : Bytes = replicate (81 - suc (length (program_id_bytes p ++ (s ++ ident)))) 0 in
    rw
      (
        (append_assoc (program_id_bytes p) (s ++ ident) pad
            ∙ ap (λ (b : Bytes). program_id_bytes p ++ b) (append_assoc s ident pad)),
        (ap (λ (n : ℕ). read_words n (program_id_bytes p ++ (s ++ (ident ++ pad)))) (sym h.0)
            ∙ read_words-program_id_bytes p (s ++ (ident ++ pad)) h.1),
        read_exact-append 32 s (ident ++ pad) h.2,
        read_exact-append 16 ident pad (length-to_le_bytes 16 i),
        le_bytes_roundtrip 16 i h.3,
      )
      refl

module _ (sha256 : Bytes → Bytes) (apply_keystream : Bytes → Bytes → Bytes) where
  transform-encrypt :
      (account : Account) (kind : PrivateAccountKind) (shared_secret : Bytes)
      (nullifier : Nullifier)
      → ((key buffer : Bytes) → apply_keystream key (apply_keystream key buffer) ≡ buffer)
      → symmetric_transform sha256 apply_keystream
          (encrypt sha256 apply_keystream account kind shared_secret nullifier)
          shared_secret
          nullifier
        ≡ to_header_bytes kind ++ account_to_bytes account
  unfolding encrypt symmetric_transform
  transform-encrypt account kind shared_secret nullifier involutive =
      involutive (kdf sha256 shared_secret nullifier)
        (to_header_bytes kind ++ account_to_bytes account)

  -- If applying the keystream of a key twice changes nothing, then `decrypt` of an encrypted note, with
  -- the same secret and nullifier, gives back the kind and the account, for a kind and an account with
  -- fields in range.
  pub decrypt-encrypt :
      (account : Account) (kind : PrivateAccountKind) (shared_secret : Bytes)
      (nullifier : Nullifier)
      → ((key buffer : Bytes) → apply_keystream key (apply_keystream key buffer) ≡ buffer)
      → IsAccount account
      → IsKind kind
      → decrypt sha256 apply_keystream
          (encrypt sha256 apply_keystream account kind shared_secret nullifier)
          shared_secret
          nullifier
        ≡ some (kind, account)
  unfolding decrypt
  decrypt-encrypt account kind shared_secret nullifier involutive is_account is_kind =
      let header = to_header_bytes kind in
      let body = account_to_bytes account in
      let len = length-to_header_bytes kind is_kind in
      let read : account_from_cursor body ≡ some (account, []) =
        ap account_from_cursor (sym (append-nil body))
        ∙ account_from_cursor-account_to_bytes account [] is_account in
      let back = transform-encrypt account kind shared_secret nullifier involutive in
      rw
        (
          back,
          take-append_length 81 header body len,
          from_header_bytes-to_header_bytes kind is_kind,
          back,
          drop-append_length 81 header body len,
          read,
        )
        (ground (arith, length-append header body, len))

  -- Two notes of the same account have the same length, whatever their kinds, secrets and nullifiers, if
  -- the keystream keeps the length of a buffer and the fields of the kinds are in range.
  pub length-encrypt :
      (account : Account) (kind kind' : PrivateAccountKind) (shared_secret shared_secret' : Bytes)
      (nullifier nullifier' : Nullifier)
      → ((key buffer : Bytes) → length (apply_keystream key buffer) ≡ length buffer)
      → IsKind kind
      → IsKind kind'
      → length (encrypt sha256 apply_keystream account kind shared_secret nullifier)
        ≡ length (encrypt sha256 apply_keystream account kind' shared_secret' nullifier')
  unfolding encrypt symmetric_transform
  length-encrypt account kind kind' shared_secret shared_secret' nullifier nullifier' keeps h h' =
      let body = account_to_bytes account in
      omega (
        arith,
        keeps (kdf sha256 shared_secret nullifier) (to_header_bytes kind ++ body),
        keeps (kdf sha256 shared_secret' nullifier') (to_header_bytes kind' ++ body),
        length-append (to_header_bytes kind) body,
        length-append (to_header_bytes kind') body,
        length-to_header_bytes kind h,
        length-to_header_bytes kind' h',
      )
