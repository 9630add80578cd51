-- ===== src/Base/Traverse.antt =====
-- `traverse`: what a successful run tells of every element, and when a run succeeds.
use mathlib.Core.Path.{◌≡◌, refl, ap, ap₂, subst, ◌∙◌, sym}
use mathlib.Core.List.{List, [], ◌∷◌, map}
use hayasend.Base.Lists.{All}
use hayasend.Base.Results.{Result, ok, traverse, >>=-eq-ok}

module _ {ℓ κ} {A : Type ℓ} {B : Type κ} (f : A → Result B) where
  -- Each value of a successful run is the result of its element.
  pub traverse-cons-eq-ok :
      (x : A) (xs : List A) {ys : List B}
      → traverse f (x ∷ xs) ≡ ok ys
      → (y : B) × (zs : List B) × (f x ≡ ok y) × (traverse f xs ≡ ok zs) × (ys ≡ y ∷ zs)
  traverse-cons-eq-ok x xs h =
      let (y, e, h') = >>=-eq-ok (f x) _ h in
      let (zs, e', h'') = >>=-eq-ok (traverse f xs) _ h' in (y, zs, e, e', cc)

  -- A relation between an element and its result, carried over to the lists.
  pub traverse-All {ι} :
      (P : B → Type ι)
      → ((x : A) (y : B) → f x ≡ ok y → P y)
      → (xs : List A) (ys : List B) → traverse f xs ≡ ok ys
      → All P ys
  traverse-All P g [] [] h = tt
  traverse-All P g [] (y ∷ ys) h = cc
  traverse-All P g (x ∷ xs) ys h =
      let (y, zs, e, e', s) = traverse-cons-eq-ok x xs h in
      subst (All P) (sym s) (g x y e, traverse-All P g xs zs e')

  -- What each call keeps of its argument, the run keeps of the list.
  pub traverse-map {ι} :
      {C : Type ι} (k : A → C) (l : B → C)
      → ((x : A) (y : B) → f x ≡ ok y → l y ≡ k x)
      → (xs : List A) (ys : List B) → traverse f xs ≡ ok ys
      → map l ys ≡ map k xs
  traverse-map k l g [] [] h = refl
  traverse-map k l g [] (y ∷ ys) h = cc
  traverse-map k l g (x ∷ xs) ys h =
      let (y, zs, e, e', s) = traverse-cons-eq-ok x xs h in
      ap (map l) s ∙ ap₂ ◌∷◌ (g x y e) (traverse-map k l g xs zs e')

-- A run that gives back each element gives back the list.
pub traverse_of_All {ℓ κ} :
    {A : Type ℓ} (f : A → Result A) (P : A → Type κ)
    → ((x : A) → P x → f x ≡ ok x)
    → (xs : List A) → All P xs
    → traverse f xs ≡ ok xs
traverse_of_All f P g [] h = refl
traverse_of_All f P g (x ∷ xs) h = rw (g x h.0, traverse_of_All f P g xs h.1)

-- A run whose calls give back their arguments gives back the list.
pub traverse_same {ℓ} :
    {A : Type ℓ} (f : A → Result A)
    → ((x y : A) → f x ≡ ok y → x ≡ y)
    → (xs ys : List A) → traverse f xs ≡ ok ys
    → xs ≡ ys
traverse_same f g [] [] h = refl
traverse_same f g [] (y ∷ ys) h = cc
traverse_same f g (x ∷ xs) ys h =
    let (y, zs, e, e', s) = traverse-cons-eq-ok f x xs h in
    ap₂ ◌∷◌ (g x y e) (traverse_same f g xs zs e') ∙ sym s
