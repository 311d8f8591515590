-- ===== src/Token/Supply.antt =====
-- What the instructions of the token program do to supplies and holdings.
use lp_0002_private_multisig.Prelude.{
  ℕ, ◌+◌, ◌≡◌, refl, sym, ◌∙◌, Bytes, bytes_eq, ok, if◌then◌else◌, arith,
}
use lp_0002_private_multisig.Core.Account.{Account, AccountId, try_into_data}
use lp_0002_private_multisig.AuthenticatedTransfer.{checked_sub, checked_add}
use lp_0002_private_multisig.Token.Types.{
  TokenDefinition, TokenHolding, fungible_holding, nft_master, nft_printed_copy, NewTokenDefinition,
  definition_id_of,
}
use lp_0002_private_multisig.Token.Holdings.{
  move_holding, mint_holding, burn_holding, print_holding, new_token,
}
use lp_0002_private_multisig.Token

-- What a holding holds: tokens, copies left to print, or one copy. What a definition has issued.
unfoldable pub units : TokenHolding → ℕ
units (fungible_holding id balance) = balance
units (nft_master id prints) = prints
units (nft_printed_copy id owned) = if owned then 1 else 0

unfoldable pub issued : TokenDefinition → ℕ
issued (TokenDefinition.fungible name supply metadata) = supply
issued (TokenDefinition.non_fungible name supply metadata) = supply

-- An amount of the token `i`, counted for the token `id`.
abbrev pub of_token : (id i : AccountId) → ℕ → ℕ
of_token id i n = if bytes_eq i id then n else 0

-- The units of the token `id` that a holding has, and that the definition with the id `i` has issued.
abbrev pub units_of : AccountId → TokenHolding → ℕ
units_of id h = of_token id (definition_id_of h) (units h)

abbrev pub issued_of : (id i : AccountId) → TokenDefinition → ℕ
issued_of id i d = of_token id i (issued d)

-- Amounts of one token that have the same sum.
of_token-moved :
    (id i j k l : AccountId) (a b a' b' : ℕ)
    → k ≡ i
    → l ≡ j
    → i ≡ j
    → a' + b' ≡ a + b
    → of_token id k a' + of_token id l b' ≡ of_token id i a + of_token id j b
of_token-moved id i j k l a b a' b' ki lj ij sum = rw (ki, lj, sym ij) (ground (arith, sum))

move_holding-totals :
    (s r : TokenHolding) (n : ℕ) {s' r' : TokenHolding}
    → move_holding s r n ≡ ok (s', r')
    → (units s' + units r' ≡ units s + units r)
      × (definition_id_of s' ≡ definition_id_of s)
      × (definition_id_of r' ≡ definition_id_of r)
unfolding move_holding checked_sub checked_add units definition_id_of
move_holding-totals (fungible_holding _ _) (fungible_holding _ _) n h =
    (ground (arith, h), ground (arith, h), ground (arith, h))
move_holding-totals (nft_master _ _) (nft_master _ _) n h =
    (ground (arith, h), ground (arith, h), ground (arith, h))
move_holding-totals (nft_printed_copy _ _) (nft_printed_copy _ _) n h =
    (ground (arith, h), ground (arith, h), ground (arith, h))
move_holding-totals (fungible_holding _ _) (nft_master _ _) n h = absurd (ground (arith, h))
move_holding-totals (fungible_holding _ _) (nft_printed_copy _ _) n h = absurd (ground (arith, h))
move_holding-totals (nft_master _ _) (fungible_holding _ _) n h = absurd (ground (arith, h))
move_holding-totals (nft_master _ _) (nft_printed_copy _ _) n h = absurd (ground (arith, h))
move_holding-totals (nft_printed_copy _ _) (fungible_holding _ _) n h = absurd (ground (arith, h))
move_holding-totals (nft_printed_copy _ _) (nft_master _ _) n h = absurd (ground (arith, h))

mint_holding-totals :
    (d : TokenDefinition) (a : TokenHolding) (n : ℕ) {d' : TokenDefinition} {a' : TokenHolding}
    → mint_holding d a n ≡ ok (d', a')
    → (issued d' + units a ≡ issued d + units a') × (definition_id_of a ≡ definition_id_of a')
unfolding mint_holding checked_add units issued definition_id_of
mint_holding-totals (TokenDefinition.fungible _ _ _) (fungible_holding _ _) n h =
    (ground (arith, h), ground (arith, h))
mint_holding-totals (TokenDefinition.fungible _ _ _) (nft_master _ _) n h =
    absurd (ground (arith, h))
mint_holding-totals (TokenDefinition.fungible _ _ _) (nft_printed_copy _ _) n h =
    absurd (ground (arith, h))
mint_holding-totals (TokenDefinition.non_fungible _ _ _) (fungible_holding _ _) n h =
    absurd (ground (arith, h))
mint_holding-totals (TokenDefinition.non_fungible _ _ _) (nft_master _ _) n h =
    absurd (ground (arith, h))
mint_holding-totals (TokenDefinition.non_fungible _ _ _) (nft_printed_copy _ _) n h =
    absurd (ground (arith, h))

burn_holding-totals :
    (d : TokenDefinition) (a : TokenHolding) (n : ℕ) {d' : TokenDefinition} {a' : TokenHolding}
    → burn_holding d a n ≡ ok (d', a')
    → (issued d' + units a ≡ issued d + units a') × (definition_id_of a ≡ definition_id_of a')
unfolding burn_holding checked_sub units issued definition_id_of
burn_holding-totals (TokenDefinition.fungible _ _ _) (fungible_holding _ _) n h =
    (ground (arith, h), ground (arith, h))
burn_holding-totals (TokenDefinition.fungible _ _ _) (nft_master _ _) n h =
    absurd (ground (arith, h))
burn_holding-totals (TokenDefinition.fungible _ _ _) (nft_printed_copy _ _) n h =
    absurd (ground (arith, h))
burn_holding-totals (TokenDefinition.non_fungible _ _ _) (fungible_holding _ _) n h =
    absurd (ground (arith, h))
burn_holding-totals (TokenDefinition.non_fungible _ _ _) (nft_master _ _) n h =
    (ground (arith, h), ground (arith, h))
burn_holding-totals (TokenDefinition.non_fungible _ _ _) (nft_printed_copy _ _) n h =
    (ground (arith, h), ground (arith, h))

print_holding-totals :
    (m : TokenHolding) {m' c : TokenHolding}
    → print_holding m ≡ ok (m', c)
    → (units m' + units c ≡ units m + 0)
      × (definition_id_of m' ≡ definition_id_of m)
      × (definition_id_of c ≡ definition_id_of m)
unfolding print_holding units definition_id_of
print_holding-totals (fungible_holding _ _) h = absurd (ground (arith, h))
print_holding-totals (nft_master _ _) h = (ground (arith, h), ground (arith, h), ground (arith, h))
print_holding-totals (nft_printed_copy _ _) h = absurd (ground (arith, h))

pub new_token-units :
    (new : NewTokenDefinition) (definition_id metadata_id : AccountId)
    → issued (new_token new definition_id metadata_id).0
      ≡ units (new_token new definition_id metadata_id).1
unfolding new_token issued units
new_token-units (NewTokenDefinition.fungible name supply) definition_id metadata_id = refl
new_token-units (NewTokenDefinition.non_fungible name supply) definition_id metadata_id = refl

pub new_token-id :
    (new : NewTokenDefinition) (definition_id metadata_id : AccountId)
    → definition_id_of (new_token new definition_id metadata_id).1 ≡ definition_id
unfolding new_token definition_id_of
new_token-id (NewTokenDefinition.fungible name supply) definition_id metadata_id = refl
new_token-id (NewTokenDefinition.non_fungible name supply) definition_id metadata_id = refl

-- The same, for the units of one token; the two holdings are of the same token, and the holding is of
-- the token of the definition.
module _ (id : AccountId) where
  pub move_holding-units :
      (s r : TokenHolding) (n : ℕ) {s' r' : TokenHolding}
      → definition_id_of s ≡ definition_id_of r
      → move_holding s r n ≡ ok (s', r')
      → units_of id s' + units_of id r' ≡ units_of id s + units_of id r
  move_holding-units s r n {s'} {r'} same h =
      let (sum, from, to) = move_holding-totals s r n h in
      of_token-moved id (definition_id_of s) (definition_id_of r) (definition_id_of s')
        (definition_id_of r') (units s) (units r) (units s') (units r') from to same sum

  pub mint_holding-units :
      (i : AccountId) (d : TokenDefinition) (a : TokenHolding) (n : ℕ) {d' : TokenDefinition}
      {a' : TokenHolding}
      → i ≡ definition_id_of a
      → mint_holding d a n ≡ ok (d', a')
      → issued_of id i d' + units_of id a ≡ issued_of id i d + units_of id a'
  mint_holding-units i d a n {d'} {a'} same h =
      let (sum, kept) = mint_holding-totals d a n h in
      of_token-moved id i (definition_id_of a') i (definition_id_of a) (issued d) (units a')
        (issued d') (units a) refl kept (same ∙ kept) sum

  pub burn_holding-units :
      (i : AccountId) (d : TokenDefinition) (a : TokenHolding) (n : ℕ) {d' : TokenDefinition}
      {a' : TokenHolding}
      → i ≡ definition_id_of a
      → burn_holding d a n ≡ ok (d', a')
      → issued_of id i d' + units_of id a ≡ issued_of id i d + units_of id a'
  burn_holding-units i d a n {d'} {a'} same h =
      let (sum, kept) = burn_holding-totals d a n h in
      of_token-moved id i (definition_id_of a') i (definition_id_of a) (issued d) (units a')
        (issued d') (units a) refl kept (same ∙ kept) sum

  pub print_holding-units :
      (m : TokenHolding) {m' c : TokenHolding}
      → print_holding m ≡ ok (m', c)
      → units_of id m' + units_of id c ≡ units_of id m
  print_holding-units m {m'} {c} h =
      let (sum, kept, copied) = print_holding-totals m h in
      let moved =
        of_token-moved id (definition_id_of m) (definition_id_of m) (definition_id_of m')
          (definition_id_of c) (units m) 0 (units m') (units c) kept copied refl sum in
      ground (arith, moved)

pub store_lem :
    (account : Account) (bytes : Bytes) {stored : Account}
    → Token.store account bytes ≡ ok stored
    → stored.data_bytes ≡ bytes
unfolding Token.store try_into_data
store_lem account bytes h = ground (arith, h)
