-- ===== src/Msig/Layout.antt =====
-- The byte layouts of the two kinds of account: a header and an array of 32-byte entries.
use mathlib.Core.List.{append_assoc}
use lp_0002_private_multisig.Prelude.{
  ℕ, ◌+◌, ◌-◌, ◌*◌, ◌<◌, ◌≡◌, refl, ap, ◌∙◌, Bytes, some, List, [], ◌∷◌, ◌++◌, length,
  length-append, take, drop, take-append_length, drop-append_length, slice, u32_to_le_bytes,
  u32_from_le_bytes, length-u32_to_le_bytes, u32_le_bytes_roundtrip, u32_mod, All, arith,
}
use lp_0002_private_multisig.Msig.Guest.{extend_all, read_entries}
use lp_0002_private_multisig.Msig.Merkle.Soundness.{IsDigest}

pub slice-append :
    (a : ℕ) (xs ys zs : Bytes)
    → length xs ≡ a
    → length ys ≡ 32
    → slice a (a + 32) (xs ++ (ys ++ zs)) ≡ some ys
unfolding slice
slice-append a xs ys zs ex ey =
    let width : a + 32 - a ≡ 32 = omega arith in
    let inner : take (a + 32 - a) (drop a (xs ++ (ys ++ zs))) ≡ ys =
      rw (width, drop-append_length a xs (ys ++ zs) ex) (take-append_length 32 ys zs ey) in
    ground (arith, inner, length-append xs (ys ++ zs), length-append ys zs)

-- Reading the entries behind a header gives back what was written there.
pub read_entries-extend_all :
    (header : Bytes) (offset : ℕ) (entries : List Bytes)
    → length header ≡ offset
    → All IsDigest entries
    → read_entries (length entries) offset (header ++ extend_all entries) ≡ some entries
unfolding read_entries extend_all
read_entries-extend_all header offset [] e h = refl
read_entries-extend_all header offset (x ∷ xs) e h =
    let here = slice-append offset header x (extend_all xs) e h.0 in
    let rest =
      read_entries-extend_all (header ++ x) (offset + 32) xs (omega (arith, length-append header x))
        h.1 in
    let rest' : read_entries (length xs) (offset + 32) (header ++ (x ++ extend_all xs)) ≡ some xs =
      rw append_assoc at rest in
    ground (arith, here, rest')

pub length-extend_all :
    (xs : List Bytes) → All IsDigest xs → length (extend_all xs) ≡ 32 * length xs
unfolding extend_all
length-extend_all [] h = omega arith
length-extend_all (x ∷ xs) h =
    omega (arith, length-append x (extend_all xs), length-extend_all xs h.1)

-- The `u32` at an offset.
pub u32_at :
    (offset : ℕ) (before after : Bytes) (n : ℕ)
    → length before ≡ offset
    → n < u32_mod
    → u32_from_le_bytes (take 4 (drop offset (before ++ u32_to_le_bytes n ++ after))) ≡ n
u32_at offset before after n e h =
    ap (λ (b : Bytes). u32_from_le_bytes (take 4 (drop offset b)))
      (append_assoc before (u32_to_le_bytes n) after)
    ∙ ap (λ (b : Bytes). u32_from_le_bytes (take 4 b))
        (drop-append_length offset before (u32_to_le_bytes n ++ after) e)
    ∙ ap u32_from_le_bytes
        (take-append_length 4 (u32_to_le_bytes n) after (length-u32_to_le_bytes n))
    ∙ u32_le_bytes_roundtrip n h
