-- ===== src/Base/Unique.antt =====
-- Distinct elements under a new last element.
use mathlib.Core.Path.{◌≡◌, refl, ◌∙◌}
use mathlib.Core.Bool.{true, false}
use mathlib.Core.List.{List, [], ◌∷◌, ◌++◌, map}
use mathlib.Core.Logic.{inl, inr}
use native.Mathlib.Omega.{arith}
use hayasend.Base.Tests.{Eq, ◌==◌, beq→eq, beq_refl, Bool-cases, or_false}
use hayasend.Base.Lists.{includes, unique, unique-cons, any}

module _ {ℓ} {A : Type ℓ} ⦃e : Eq A⦄ where
  pub unique_cons_intro :
      (x : A) (xs : List A) → includes xs x ≡ false → unique xs ≡ true → unique (x ∷ xs) ≡ true
  unique_cons_intro x xs n h = ground arith

  pub beq_sym : (a b : A) → (a == b) ≡ (b == a)
  beq_sym a b = elim (Bool-cases (a == b)) [
    | inl t ↦ ground (arith, beq→eq a b t, beq_refl a, beq_refl b)
    | inr f ↦ elim (Bool-cases (b == a)) [
      | inl t ↦ ground (arith, beq→eq b a t, beq_refl a, beq_refl b)
      | inr g ↦ ground arith
    ]
  ]

  includes-snoc :
      (xs : List A) (b x : A)
      → includes xs x ≡ false
      → (b == x) ≡ false
      → includes (xs ++ b ∷ []) x ≡ false
  includes-snoc [] b x h n = ground arith
  includes-snoc (y ∷ ys) b x h n = ground (arith, includes-snoc ys b x)

  pub unique-snoc :
      (xs : List A) (b : A)
      → includes xs b ≡ false
      → unique xs ≡ true
      → unique (xs ++ b ∷ []) ≡ true
  unique-snoc [] b n h = refl
  unique-snoc (x ∷ xs) b n h =
      let (fresh, rest) = unique-cons x xs h in
      let (other, later) = or_false (x == b) (includes xs b) n in
      unique_cons_intro x (xs ++ b ∷ []) (includes-snoc xs b x fresh (beq_sym b x ∙ other))
        (unique-snoc xs b later rest)

  -- No element has the key.
  pub includes-map-false {κ} :
      {B : Type κ} (k : B → A) (a : A) (xs : List B)
      → any (λ x. k x == a) xs ≡ false
      → includes (map k xs) a ≡ false
  includes-map-false k a [] h = refl
  includes-map-false k a (x ∷ xs) h = ground (arith, includes-map-false k a xs)
