-- ===== src/Core/Keys.antt =====
-- Key and address derivation: lee/state_machine/core/src/nullifier.rs and the PDA derivations of
-- program/mod.rs. SHA-256 is the zkVM's: a parameter.
use lp_0002_private_multisig.Prelude.{
  ℕ, List, [], ◌∷◌, ◌++◌, Bytes, codes, replicate, u32_to_le_bytes, to_le_bytes,
}
use lp_0002_private_multisig.Core.Account.{ProgramId, AccountId}

-- The `[u32; 8]` of a program id as its 32 bytes (`bytemuck` on a little-endian target).
unfoldable pub program_id_bytes : ProgramId → Bytes
program_id_bytes [] = []
program_id_bytes (w ∷ ws) = u32_to_le_bytes w ++ program_id_bytes ws

module _ (sha256 : Bytes → Bytes) where
  -- `impl From<&NullifierSecretKey> for NullifierPublicKey`
  unfoldable pub nullifier_public_key : Bytes → Bytes
  nullifier_public_key nsk = sha256 (codes "LEE/keys" ++ nsk ++ 7 ∷ replicate 23 0)

  -- `AccountId::for_regular_private_account`
  unfoldable pub for_regular_private_account : Bytes → Bytes → ℕ → AccountId
  for_regular_private_account npk vpk identifier = sha256 (
      (codes "/LEE/v0.3/AccountId/Private/" ++ replicate 4 0)
      ++ npk
      ++ vpk
      ++ to_le_bytes 16 identifier)

  -- `AccountId::for_public_pda`
  unfoldable pub for_public_pda : ProgramId → Bytes → AccountId
  for_public_pda program_id seed =
      sha256
        ((codes "/LEE/v0.2/AccountId/PDA/" ++ replicate 8 0) ++ program_id_bytes program_id ++ seed)

  -- `AccountId::for_private_pda`
  unfoldable pub for_private_pda : ProgramId → Bytes → Bytes → Bytes → ℕ → AccountId
  for_private_pda program_id seed npk vpk identifier = sha256 (
      (codes "/LEE/v0.3/AccountId/PrivatePDA/" ++ replicate 1 0)
      ++ program_id_bytes program_id
      ++ seed
      ++ npk
      ++ vpk
      ++ to_le_bytes 16 identifier)

  -- `compute_public_authorized_pdas`, for a caller; without one the set is empty.
  unfoldable pub seeds_to_pdas : ProgramId → List Bytes → List AccountId
  seeds_to_pdas caller [] = []
  seeds_to_pdas caller (seed ∷ seeds) = for_public_pda caller seed ∷ seeds_to_pdas caller seeds
