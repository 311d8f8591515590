-- ===== src/Witnesses/Encryption.antt =====
-- The encoding of an account and its encryption, with a keystream that flips the lowest bits.
use lp_0002_private_multisig.Prelude.{
  ◌≡◌, refl, [], ◌∷◌, ◌++◌, Bytes, some, length, replicate, arith,
}
use lp_0002_private_multisig.Core.Account.{Account}
use lp_0002_private_multisig.Core.Circuit.{PrivateAccountKind, regular, pda_kind}
use lp_0002_private_multisig.Core.Encoding.{account_to_bytes, account_from_cursor}
use lp_0002_private_multisig.Core.Encoding.Roundtrip.{
  IsAccount, account_from_cursor-account_to_bytes,
}
use lp_0002_private_multisig.Core.Encryption.{encrypt, decrypt}
use lp_0002_private_multisig.Core.Encryption.Notes.{IsKind, decrypt-encrypt, length-encrypt}
use lp_0002_private_multisig.Msig.Scheme.{flip_low_bit}
use lp_0002_private_multisig.Witnesses.Samples.{toy_hash}

unfoldable flip_all : Bytes → Bytes
flip_all [] = []
flip_all (b ∷ bs) = flip_low_bit b ∷ flip_all bs

flip_all-flip_all : (bytes : Bytes) → flip_all (flip_all bytes) ≡ bytes
unfolding flip_all
flip_all-flip_all [] = refl
flip_all-flip_all (b ∷ bs) = ground (arith, flip_all-flip_all bs)

length-flip_all : (bytes : Bytes) → length (flip_all bytes) ≡ length bytes
unfolding flip_all
length-flip_all [] = refl
length-flip_all (b ∷ bs) = ground (arith, length-flip_all bs)

abbrev keystream : Bytes → Bytes → Bytes
keystream key buffer = flip_all buffer

abbrev saved : Account
saved = record {
  program_owner = 1 ∷ 2 ∷ 3 ∷ 4 ∷ 5 ∷ 6 ∷ 7 ∷ 4000000000 ∷ [];
  balance = 123456789012345678901234567890;
  data_bytes = 17 ∷ 0 ∷ 255 ∷ [];
  nonce = 77;
}

saved-IsAccount : IsAccount saved
saved-IsAccount = record {
  owner_len = refl;
  owner_words = (
    omega arith,
    (
      omega arith,
      (omega arith, (omega arith, (omega arith, (omega arith, (omega arith, (omega arith, tt)))))),
    ),
  );
  balance_u128 = omega arith;
  nonce_u128 = omega arith;
  data_fits = omega arith;
}

abbrev pda : PrivateAccountKind
pda = pda_kind (replicate 8 6) (replicate 32 9) 1000

pda-IsKind : IsKind pda
pda-IsKind = (
  refl,
  (
    omega arith,
    (
      omega arith,
      (omega arith, (omega arith, (omega arith, (omega arith, (omega arith, (omega arith, tt)))))),
    ),
  ),
  refl,
  omega arith,
)

abbrev secret : Bytes
secret = replicate 32 4

abbrev spent : Bytes
spent = replicate 32 5

account_from_cursor-account_to_bytes_example :
    account_from_cursor (account_to_bytes saved ++ 9 ∷ 8 ∷ []) ≡ some (saved, 9 ∷ 8 ∷ [])
account_from_cursor-account_to_bytes_example =
    account_from_cursor-account_to_bytes saved (9 ∷ 8 ∷ []) saved-IsAccount

decrypt-encrypt_example :
    decrypt toy_hash keystream (encrypt toy_hash keystream saved pda secret spent) secret spent
    ≡ some (pda, saved)
decrypt-encrypt_example =
    decrypt-encrypt toy_hash keystream saved pda secret spent
      (λ key buffer. flip_all-flip_all buffer) saved-IsAccount pda-IsKind

length-encrypt_example :
    length (encrypt toy_hash keystream saved pda secret spent)
    ≡ length (encrypt toy_hash keystream saved (regular 3) (replicate 32 8) (replicate 32 2))
length-encrypt_example =
    length-encrypt toy_hash keystream saved pda (regular 3) secret (replicate 32 8) spent
      (replicate 32 2) (λ key buffer. length-flip_all buffer) pda-IsKind (omega arith)
