-- ===== src/Chain/Replays.antt =====
-- Replaying entries on a tip and a state, in parts.
use lp_0002_private_multisig.Prelude.{
  ℕ, zero, suc, ◌≡◌, refl, Option, some, List, [], ◌∷◌, ◌++◌, take, drop, ok, >>=-eq-ok,
}
use lp_0002_private_multisig.State.Types.{V03State}
use lp_0002_private_multisig.Chain.Types.{ChainHost, Tip, tip_of}
use lp_0002_private_multisig.Chain.Blocks.{apply_block}
use lp_0002_private_multisig.Chain.Tiers.{HeadEntry, last_tip, replay}

pub take-append-drop : {A : Type 0} (n : ℕ) (xs : List A) → take n xs ++ drop n xs ≡ xs
take-append-drop zero xs = refl
take-append-drop (suc n) [] = refl
take-append-drop (suc n) (x ∷ xs) = rw (take-append-drop n xs) refl

pub last_tip-append :
    (tip : Option Tip) (xs ys : List HeadEntry)
    → last_tip tip (xs ++ ys) ≡ last_tip (last_tip tip xs) ys
unfolding last_tip
last_tip-append tip [] ys = refl
last_tip-append tip (x ∷ xs) ys = last_tip-append (some (tip_of x.block)) xs ys

module _ (chain : ChainHost) where
  -- The first entry of a replay that succeeds is applied.
  pub replay_cons :
      (tip : Option Tip) (state : V03State) (x : HeadEntry) (xs : List HeadEntry)
      {result : V03State × Option Tip}
      → replay chain tip state (x ∷ xs) ≡ ok result
      → (next : V03State) × (apply_block chain tip x.block state ≡ ok next)
        × (replay chain (some (tip_of x.block)) next xs ≡ ok result)
  unfolding replay
  replay_cons tip state x xs h = >>=-eq-ok (apply_block chain tip x.block state) _ h

  pub replay_step :
      (tip : Option Tip) (state next : V03State) (x : HeadEntry) (xs : List HeadEntry)
      → apply_block chain tip x.block state ≡ ok next
      → replay chain tip state (x ∷ xs) ≡ replay chain (some (tip_of x.block)) next xs
  unfolding replay
  replay_step tip state next x xs e = rw e refl

  pub replay-last_tip :
      (tip : Option Tip) (state : V03State) (xs : List HeadEntry) {result : V03State × Option Tip}
      → replay chain tip state xs ≡ ok result
      → result.1 ≡ last_tip tip xs
  unfolding last_tip replay
  replay-last_tip tip state [] h = cc h
  replay-last_tip tip state (x ∷ xs) h =
      let (next, e, h1) = replay_cons tip state x xs h in
      replay-last_tip (some (tip_of x.block)) next xs h1

  pub replay-append :
      (tip : Option Tip) (state : V03State) (xs ys : List HeadEntry)
      {middle : V03State × Option Tip}
      → replay chain tip state xs ≡ ok middle
      → replay chain tip state (xs ++ ys) ≡ replay chain middle.1 middle.0 ys
  unfolding replay
  replay-append tip state [] ys h = cc h
  replay-append tip state (x ∷ xs) ys h =
      let (next, e, h1) = replay_cons tip state x xs h in
      rw (replay_step tip state next x (xs ++ ys) e)
        (replay-append (some (tip_of x.block)) next xs ys h1)

  -- The parts of a replay that succeeds succeed.
  pub replay_split :
      (tip : Option Tip) (state : V03State) (xs ys : List HeadEntry)
      {result : V03State × Option Tip}
      → replay chain tip state (xs ++ ys) ≡ ok result
      → (middle : V03State × Option Tip) × (replay chain tip state xs ≡ ok middle)
        × (replay chain middle.1 middle.0 ys ≡ ok result)
  unfolding replay
  replay_split tip state [] ys h = ((state, tip), refl, h)
  replay_split tip state (x ∷ xs) ys h =
      let (next, e, h1) = replay_cons tip state x (xs ++ ys) h in
      let (middle, first, second) = replay_split (some (tip_of x.block)) next xs ys h1 in
      (middle, rw (replay_step tip state next x xs e) first, second)
