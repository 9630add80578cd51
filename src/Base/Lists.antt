-- ===== src/Base/Lists.antt =====
-- Lists as the source's arrays: tests over elements, `includes`, uniqueness by a `Set`'s size.
use Prim.Native.Nat.{ℕ, zero, suc, ◌≤◌}
use mathlib.Core.Path.{◌≡◌, refl, ap, ap₂, subst}
use mathlib.Core.Logic.{inl, inr, ◌↔◌}
use mathlib.Core.Bool.{Bool, true, false, ◌&&◌, ◌||◌, not}
use mathlib.Core.Option.{Option, none, some}
use mathlib.Core.List.{List, [], ◌∷◌, ◌++◌, map}
use native.Mathlib.Omega.{arith}
use hayasend.Base.Tests.{
  if◌then◌else◌, nat_beq, Eq, ◌==◌, beq→eq, beq_refl, and_true, and_intro, or_false, Bool-cases,
}

module _ {ℓ} {A : Type ℓ} where
  abbrev pub length : List A → ℕ
  length [] = 0
  length (x ∷ xs) = suc (length xs)

  abbrev pub any : (A → Bool) → List A → Bool
  any p [] = false
  any p (x ∷ xs) = p x || any p xs

  abbrev pub all : (A → Bool) → List A → Bool
  all p [] = true
  all p (x ∷ xs) = p x && all p xs

  -- Array.prototype.filter
  abbrev pub filter_by : (A → Bool) → List A → List A
  filter_by p [] = []
  filter_by p (x ∷ xs) = let rest = filter_by p xs in if p x then x ∷ rest else rest

  -- Array.prototype.find
  abbrev pub find : (A → Bool) → List A → Option A
  find p [] = none
  find p (x ∷ xs) = let rest = find p xs in if p x then some x else rest

  -- slice(0, n)
  abbrev pub take : ℕ → List A → List A
  take zero xs = []
  take (suc n) [] = []
  take (suc n) (x ∷ xs) = x ∷ take n xs

  abbrev pub All {κ} : (A → Type κ) → List A → Type κ
  All P [] = Unit
  All P (x ∷ xs) = P x × All P xs

module _ {ℓ} {A : Type ℓ} where
  pub All-of_all {κ} :
      (P : A → Type κ) (p : A → Bool)
      → ((x : A) → p x ≡ true → P x)
      → (xs : List A) → all p xs ≡ true
      → All P xs
  All-of_all P p f [] h = tt
  All-of_all P p f (x ∷ xs) h =
      let (a, b) = and_true (p x) (all p xs) h in (f x a, All-of_all P p f xs b)

  pub All-of {κ} : {P : A → Type κ} → ((x : A) → P x) → (xs : List A) → All P xs
  All-of f [] = tt
  All-of f (x ∷ xs) = (f x, All-of f xs)

  pub All-map {κ κ'} :
      {P : A → Type κ} {Q : A → Type κ'}
      → ((x : A) → P x → Q x)
      → (xs : List A) → All P xs
      → All Q xs
  All-map f [] h = tt
  All-map f (x ∷ xs) h = (f x h.0, All-map f xs h.1)

  pub All-pair {κ κ'} :
      (P : A → Type κ) (Q : A → Type κ') (xs : List A)
      → All P xs
      → All Q xs
      → All (λ a. P a × Q a) xs
  All-pair P Q [] h k = tt
  All-pair P Q (x ∷ xs) h k = ((h.0, k.0), All-pair P Q xs h.1 k.1)

  pub all_of_All {κ} :
      (P : A → Type κ) (p : A → Bool)
      → ((x : A) → P x → p x ≡ true)
      → (xs : List A) → All P xs
      → all p xs ≡ true
  all_of_All P p f [] h = refl
  all_of_All P p f (x ∷ xs) h = and_intro (f x h.0) (all_of_All P p f xs h.1)

  pub All-append {κ} : (P : A → Type κ) (xs ys : List A) → All P xs → All P ys → All P (xs ++ ys)
  All-append P [] ys hx hy = hy
  All-append P (x ∷ xs) ys hx hy = (hx.0, All-append P xs ys hx.1 hy)

  pub All-of_map {ι κ} :
      {B : Type ι} (P : B → Type κ) (f : A → B) (xs : List A)
      → All (λ x. P (f x)) xs
      → All P (map f xs)
  All-of_map P f [] h = tt
  All-of_map P f (x ∷ xs) h = (h.0, All-of_map P f xs h.1)

  pub length-map {ι} : {B : Type ι} (f : A → B) (xs : List A) → length (map f xs) ≡ length xs
  length-map f [] = refl
  length-map f (x ∷ xs) = ap suc (length-map f xs)

  pub find_sound : (p : A → Bool) (xs : List A) (a : A) → find p xs ≡ some a → p a ≡ true
  find_sound p [] a h = cc
  find_sound p (x ∷ xs) a h = ground (arith, find_sound p xs a)

  pub find-All {κ} :
      (P : A → Type κ) (p : A → Bool) (xs : List A) (a : A) → All P xs → find p xs ≡ some a → P a
  find-All P p [] a all h = cc
  find-All P p (x ∷ xs) a all h = elim (Bool-cases (p x)) [
    | inl e ↦ let e' : x ≡ a = ground arith in subst P e' all.0
    | inr e ↦ find-All P p xs a all.1 (ground arith)
  ]

  pub any-false : (p : A → Bool) (xs : List A) → any p xs ≡ false → All (λ x. p x ≡ false) xs
  any-false p [] h = tt
  any-false p (x ∷ xs) h = let (a, b) = or_false (p x) (any p xs) h in (a, any-false p xs b)

  pub false-any : (p : A → Bool) (xs : List A) → All (λ x. p x ≡ false) xs → any p xs ≡ false
  false-any p [] h = refl
  false-any p (x ∷ xs) h = rw h.0 (false-any p xs h.1)

-- `includes`, and the uniqueness that a `Set`'s size tests.
module _ {ℓ} {A : Type ℓ} ⦃e : Eq A⦄ where
  abbrev pub includes : List A → A → Bool
  includes [] a = false
  includes (x ∷ xs) a = x == a || includes xs a

  -- `[...new Set(values)]`: each value once, in the order in which they first stand.
  abbrev pub as_set : List A → List A
  as_set [] = []
  as_set (x ∷ xs) = x ∷ filter_by (λ y. not (x == y)) (as_set xs)

  -- The last of each value: as many as `new Set(values)` has.
  abbrev pub distinct : List A → List A
  distinct [] = []
  distinct (x ∷ xs) = let rest = distinct xs in if includes xs x then rest else x ∷ rest

  -- `new Set(values).size === values.length`
  abbrev pub unique : List A → Bool
  unique xs = nat_beq (length (distinct xs)) (length xs)

  length-distinct-le : (xs : List A) → length (distinct xs) ≤ length xs
  length-distinct-le [] = omega arith
  length-distinct-le (x ∷ xs) = ground (arith, length-distinct-le xs)

  -- No element is included in what follows it.
  pub unique-cons :
      (x : A) (xs : List A) → unique (x ∷ xs) ≡ true → (includes xs x ≡ false) × (unique xs ≡ true)
  unique-cons x xs h = ground (arith, length-distinct-le xs)

  abbrev pub list_beq : List A → List A → Bool
  list_beq [] [] = true
  list_beq [] (y ∷ ys) = false
  list_beq (x ∷ xs) [] = false
  list_beq (x ∷ xs) (y ∷ ys) = x == y && list_beq xs ys

  pub list_beq_iff : (xs ys : List A) → (list_beq xs ys ≡ true) ↔ (xs ≡ ys)
  list_beq_iff [] [] = (λ _. refl, λ _. refl)
  list_beq_iff [] (y ∷ ys) = (λ h. cc, λ h. cc)
  list_beq_iff (x ∷ xs) [] = (λ h. cc, λ h. cc)
  list_beq_iff (x ∷ xs) (y ∷ ys) = (
    λ h.
        let (a, b) = and_true (x == y) (list_beq xs ys) h in
        ap₂ ◌∷◌ (beq→eq x y a) ((list_beq_iff xs ys).0 b),
    λ h. and_intro ((e.beq_iff x y).1 (cc)) ((list_beq_iff xs ys).1 (cc)),
  )

  instance abbrev pub list_eq : Eq (List A)
  list_eq = record { beq = list_beq; beq_iff = list_beq_iff }

  pub includes-cons_right :
      (x : A) (xs ys : List A) → all (includes xs) ys ≡ true → all (includes (x ∷ xs)) ys ≡ true
  includes-cons_right x xs [] h = refl
  includes-cons_right x xs (y ∷ ys) h = ground (arith, includes-cons_right x xs ys)

  -- A list includes each of its elements.
  pub all-includes_self : (xs : List A) → all (includes xs) xs ≡ true
  all-includes_self [] = refl
  all-includes_self (x ∷ xs) = rw beq_refl (includes-cons_right x xs xs (all-includes_self xs))
