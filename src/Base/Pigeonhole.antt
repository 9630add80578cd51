-- ===== src/Base/Pigeonhole.antt =====
-- Distinct elements that all stand in a list of no more elements are all of it.
use Prim.Native.Nat.{suc, ◌≤◌}
use mathlib.Core.Path.{◌≡◌, refl}
use mathlib.Core.Bool.{true, false}
use mathlib.Core.List.{List, [], ◌∷◌}
use mathlib.Core.Logic.{◌⊎◌, inl, inr}
use native.Mathlib.Omega.{arith}
use hayasend.Base.Tests.{if◌then◌else◌, Eq, ◌==◌, beq→eq, beq_refl, and_true, and_intro, Bool-cases}
use hayasend.Base.Lists.{length, all, includes, unique, unique-cons}

module _ {ℓ} {A : Type ℓ} ⦃e : Eq A⦄ where
  erase : A → List A → List A
  erase a [] = []
  erase a (x ∷ xs) = let rest = erase a xs in if x == a then xs else x ∷ rest

  length-erase :
      (a : A) (xs : List A) → includes xs a ≡ true → suc (length (erase a xs)) ≡ length xs
  unfolding erase
  length-erase a [] h = cc
  length-erase a (x ∷ xs) h = ground (arith, length-erase a xs)

  includes-erase :
      (a b : A) (xs : List A)
      → (a == b) ≡ false
      → includes xs b ≡ true
      → includes (erase a xs) b ≡ true
  unfolding erase
  includes-erase a b [] n h = cc
  includes-erase a b (x ∷ xs) n h = ground (arith, includes-erase a b xs n, beq→eq x a, n)

  all-includes-erase :
      (a : A) (xs ys : List A)
      → includes xs a ≡ false
      → all (includes ys) xs ≡ true
      → all (includes (erase a ys)) xs ≡ true
  all-includes-erase a [] ys n h = refl
  all-includes-erase a (x ∷ xs) ys n h =
      and_intro (includes-erase a x ys (flip (Bool-cases (a == x))) (and_true _ _ h).0)
        (all-includes-erase a xs ys (ground arith) (and_true _ _ h).1)
    where
      flip : ((a == x) ≡ true) ⊎ ((a == x) ≡ false) → (a == x) ≡ false
      flip (inr f) = f
      flip (inl t) = ground (arith, beq→eq a x t, beq_refl x)

  pub pigeonhole :
      (xs ys : List A) (b : A)
      → unique xs ≡ true
      → all (includes ys) xs ≡ true
      → length ys ≤ length xs
      → includes ys b ≡ true
      → includes xs b ≡ true
  pigeonhole [] [] b u h n k = cc
  pigeonhole [] (y ∷ ys) b u h n k = absurd (omega arith)
  pigeonhole (x ∷ xs) ys b u h n k = elim (Bool-cases (x == b)) [
    | inl here ↦ rw here
    | inr other ↦
        let (fresh, rest) = unique-cons x xs u in
        let (known, more) = and_true (includes ys x) _ h in
        rw other (
          pigeonhole xs (erase x ys) b rest (all-includes-erase x xs ys fresh more)
            (omega (arith, length-erase x ys known)) (includes-erase x b ys other k))
  ]

  -- So each test of membership may go by either list.
  pub all-includes-pigeonhole :
      (xs ys bs : List A)
      → unique xs ≡ true
      → all (includes ys) xs ≡ true
      → length ys ≤ length xs
      → all (includes ys) bs ≡ true
      → all (includes xs) bs ≡ true
  all-includes-pigeonhole xs ys [] u h n k = refl
  all-includes-pigeonhole xs ys (b ∷ bs) u h n k =
      let (here, rest) = and_true (includes ys b) _ k in
      and_intro (pigeonhole xs ys b u h n here) (all-includes-pigeonhole xs ys bs u h n rest)
