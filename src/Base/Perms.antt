-- ===== src/Base/Perms.antt =====
-- What a rearrangement of a list leaves as it is.
use Prim.Native.Nat.{suc}
use mathlib.Core.Path.{◌≡◌, refl, sym, ap, ap₂, ◌∙◌}
use mathlib.Core.Bool.{Bool, ◌&&◌, ◌||◌}
use mathlib.Core.List.{List, [], ◌∷◌, Permᴰ}
use native.Mathlib.Omega.{arith}
use hayasend.Base.Tests.{Eq, ◌==◌}
use hayasend.Base.Lists.{length, any, all, filter_by, includes}

module _ {ℓ} {A : Type ℓ} (q : A → Bool) where
  pub any-perm : {xs ys : List A} → Permᴰ xs ys → any q xs ≡ any q ys
  any-perm Permᴰ.nil = refl
  any-perm (Permᴰ.cons e p) = ap₂ (λ x b. q x || b) e (any-perm p)
  any-perm (Permᴰ.swap {a} {b} {a' = c} {b' = d} {l} e f) = ground (arith, ap q e, ap q f)
  any-perm (Permᴰ.trans p r) = any-perm p ∙ any-perm r

  pub all-perm : {xs ys : List A} → Permᴰ xs ys → all q xs ≡ all q ys
  all-perm Permᴰ.nil = refl
  all-perm (Permᴰ.cons e p) = ap₂ (λ x b. q x && b) e (all-perm p)
  all-perm (Permᴰ.swap e f) = ground (arith, ap q e, ap q f)
  all-perm (Permᴰ.trans p r) = all-perm p ∙ all-perm r

  -- How many elements a filter keeps.
  pub length-filter_by-perm :
      {xs ys : List A} → Permᴰ xs ys → length (filter_by q xs) ≡ length (filter_by q ys)
  length-filter_by-perm Permᴰ.nil = refl
  length-filter_by-perm (Permᴰ.cons {a} {b} {l₁} {l₂} e p) =
      ground (arith, ap q e, length-filter_by-perm p)
  length-filter_by-perm (Permᴰ.swap e f) = ground (arith, ap q e, ap q f)
  length-filter_by-perm (Permᴰ.trans p r) = length-filter_by-perm p ∙ length-filter_by-perm r

module _ {ℓ} {A : Type ℓ} where
  pub length-perm : {xs ys : List A} → Permᴰ xs ys → length xs ≡ length ys
  length-perm Permᴰ.nil = refl
  length-perm (Permᴰ.cons e p) = ap suc (length-perm p)
  length-perm (Permᴰ.swap e f) = refl
  length-perm (Permᴰ.trans p r) = length-perm p ∙ length-perm r

-- `includes` as a test over the elements.
module _ {ℓ} {A : Type ℓ} ⦃e : Eq A⦄ where
  pub includes-any : (xs : List A) (a : A) → includes xs a ≡ any (λ x. x == a) xs
  includes-any [] a = refl
  includes-any (x ∷ xs) a = ap (λ b. x == a || b) (includes-any xs a)

  pub includes-perm : {xs ys : List A} (a : A) → Permᴰ xs ys → includes xs a ≡ includes ys a
  includes-perm {xs} {ys} a p =
      includes-any xs a ∙ any-perm (λ x. x == a) p ∙ sym (includes-any ys a)
