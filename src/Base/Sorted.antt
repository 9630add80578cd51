-- ===== src/Base/Sorted.antt =====
-- What Array.prototype.sort makes of a list: a rearrangement of it, in order.
use Prim.Native.Nat.{ℕ, zero, suc}
use mathlib.Core.Path.{◌≡◌, refl, ap}
use mathlib.Core.Bool.{Bool, true, false}
use mathlib.Core.List.{List, [], ◌∷◌, Permᴰ}
use mathlib.Core.List.Permᴰ
use mathlib.Core.Logic.{◌⊎◌, inl, inr}
use hayasend.Base.Tests.{Bool-cases}
use hayasend.Base.Lists.{All, All-map, take, length}
use hayasend.Base.Slices.{drop}
use hayasend.Base.Sort.{insert, insert-All, sort}

module _ {ℓ} {A : Type ℓ} where
  insert-perm : (le : A → A → Bool) (x : A) (xs : List A) → Permᴰ (insert le x xs) (x ∷ xs)
  insert-perm le x [] = Permᴰ.refl (x ∷ [])
  insert-perm le x (y ∷ ys) = elim (Bool-cases (le x y)) [
    | inl t ↦ rw t (Permᴰ.refl (x ∷ y ∷ ys))
    | inr f ↦ rw f (Permᴰ.trans (Permᴰ.cons refl (insert-perm le x ys)) (Permᴰ.swap refl refl))
  ]

  pub sort-perm : (le : A → A → Bool) (xs : List A) → Permᴰ (sort le xs) xs
  sort-perm le [] = Permᴰ.nil
  sort-perm le (x ∷ xs) =
      Permᴰ.trans (insert-perm le x (sort le xs)) (Permᴰ.cons refl (sort-perm le xs))

  -- What is taken is all that there is, or as much as may be.
  pub take_or_all :
      (n : ℕ) (xs : List A) → (length (take n xs) ≡ n) ⊎ (◌≡◌ {A = List A} (drop n xs) [])
  take_or_all zero xs = inl refl
  take_or_all (suc n) [] = inr refl
  take_or_all (suc n) (x ∷ xs) = elim (take_or_all n xs) [ inl e ↦ inl (ap suc e) | inr e ↦ inr e ]

module _ {ℓ κ} {A : Type ℓ} (R : A → A → Type κ) where
  -- Each element before all that follow it.
  abbrev pub Sorted : List A → Type (ℓ ⊔ κ)
  Sorted [] = Unit
  Sorted (x ∷ xs) = All (R x) xs × Sorted xs

  module _ (le : A → A → Bool) (yes : (x y : A) → le x y ≡ true → R x y)
      (no : (x y : A) → le x y ≡ false → R y x) (chain : (x y z : A) → R x y → R y z → R x z) where
    insert-Sorted : (x : A) (xs : List A) → Sorted xs → Sorted (insert le x xs)
    insert-Sorted x [] h = (tt, tt)
    insert-Sorted x (y ∷ ys) h = elim (Bool-cases (le x y)) [
      | inl t ↦ rw t ((yes x y t, All-map (λ z. chain x y z (yes x y t)) ys h.0), h)
      | inr f ↦ rw f (insert-All le (R y) x ys (no x y f) h.0, insert-Sorted x ys h.1)
    ]

    pub sort-Sorted : (xs : List A) → Sorted (sort le xs)
    sort-Sorted [] = tt
    sort-Sorted (x ∷ xs) = insert-Sorted x (sort le xs) (sort-Sorted xs)

  drop-All {μ} : (P : A → Type μ) (n : ℕ) (xs : List A) → All P xs → All P (drop n xs)
  drop-All P zero xs h = h
  drop-All P (suc n) [] h = h
  drop-All P (suc n) (x ∷ xs) h = drop-All P n xs h.1

  -- What is taken of a sorted list comes before what is dropped.
  pub Sorted-take : (n : ℕ) (xs : List A) → Sorted xs → All (λ x. All (R x) (drop n xs)) (take n xs)
  Sorted-take zero xs h = tt
  Sorted-take (suc n) [] h = tt
  Sorted-take (suc n) (x ∷ xs) h = (drop-All (R x) n xs h.0, Sorted-take n xs h.1)
