-- ===== src/Base/Assoc/Keyed.antt =====
-- Maps that hold each record under its own identifier, once.
use Prim.Native.String.{String}
use Prim.Native.Nat.{ℕ, zero, suc, ◌≤◌}
use mathlib.Core.Path.{◌≡◌, refl, sym, ◌∙◌, ap}
use mathlib.Core.Logic.{◌≢◌, inl, inr}
use mathlib.Core.Bool.{Bool, true}
use mathlib.Core.Option.{none, some}
use mathlib.Core.List.{List, [], ◌∷◌}
use native.Mathlib.Omega.{arith}
use text.Mathlib.TextEquality.{eq_iff}
use hayasend.Base.Tests.{◌==◌, string_eq, Bool-cases, some_inj}
use hayasend.Base.Lists.{All, All-map, filter_by, take, length}
use hayasend.Base.Sort.{insert, insert-All, sort, sort-All}
use hayasend.Base.Assoc.{Assoc, get, put, values, get-put}

module _ {ℓ} {V : Type ℓ} (id : V → String) where
  unfoldable pub IsKeyed : Assoc V → Type ℓ
  IsKeyed [] = Unit
  IsKeyed ((k, v) ∷ m) = (k ≡ id v) × (get k m ≡ none) × IsKeyed m

  pub put-IsKeyed : (k : String) (v : V) (m : Assoc V) → k ≡ id v → IsKeyed m → IsKeyed (put k v m)
  unfolding IsKeyed put get
  put-IsKeyed k v [] e h = (e, refl, tt)
  put-IsKeyed k v ((j, w) ∷ m) e (a, b, c) = elim (Bool-cases (j == k)) [
    | inl t ↦ rw t (((eq_iff j k).0 t) ∙ e, b, c)
    | inr f ↦
        rw f (a, ground (arith, get-put k j v m, eq_iff k j, eq_iff j k), put-IsKeyed k v m e c)
  ]

  -- Each record is found under its identifier.
  pub IsKeyed-get : (m : Assoc V) → IsKeyed m → All (λ v. get (id v) m ≡ some v) (values m)
  unfolding IsKeyed get
  IsKeyed-get [] h = tt
  IsKeyed-get ((k, v) ∷ m) (a, b, c) = (
    ground (arith, eq_iff k (id v)),
    All-map (λ w e. ground (arith, eq_iff k (id w))) (values m) (IsKeyed-get m c),
  )

  -- No two of the records have the same identifier.
  unfoldable pub AreApart : List V → Type 0
  AreApart [] = Unit
  AreApart (v ∷ vs) = All (λ w. id v ≢ id w) vs × AreApart vs

  pub IsKeyed-AreApart : (m : Assoc V) → IsKeyed m → AreApart (values m)
  unfolding IsKeyed AreApart
  IsKeyed-AreApart [] h = tt
  IsKeyed-AreApart ((k, v) ∷ m) (a, b, c) =
      (All-map (λ w e q. ground arith) (values m) (IsKeyed-get m c), IsKeyed-AreApart m c)

module _ {ℓ} {V : Type ℓ} (id : V → String) where
  filter_by-All {κ} :
      (P : V → Type κ) (q : V → Bool) (vs : List V) → All P vs → All P (filter_by q vs)
  filter_by-All P q [] h = tt
  filter_by-All P q (v ∷ vs) h = elim (Bool-cases (q v)) [
    | inl t ↦ rw t (h.0, filter_by-All P q vs h.1)
    | inr f ↦ rw f (filter_by-All P q vs h.1)
  ]

  pub filter_by-AreApart :
      (q : V → Bool) (vs : List V) → AreApart id vs → AreApart id (filter_by q vs)
  unfolding AreApart
  filter_by-AreApart q [] h = tt
  filter_by-AreApart q (v ∷ vs) h = elim (Bool-cases (q v)) [
    | inl t ↦ rw t (filter_by-All _ q vs h.0, filter_by-AreApart q vs h.1)
    | inr f ↦ rw f (filter_by-AreApart q vs h.1)
  ]

  insert-apart :
      (le : V → V → Bool) (v : V) (vs : List V)
      → All (λ w. id v ≢ id w) vs
      → AreApart id vs
      → AreApart id (insert le v vs)
  unfolding AreApart
  insert-apart le v [] h k = (tt, tt)
  insert-apart le v (w ∷ ws) h k = elim (Bool-cases (le v w)) [
    | inl t ↦ rw t (h, k)
    | inr f ↦ rw f (insert-All le _ v ws (λ q. h.0 (sym q)) k.0, insert-apart le v ws h.1 k.1)
  ]

  pub sort-AreApart : (le : V → V → Bool) (vs : List V) → AreApart id vs → AreApart id (sort le vs)
  unfolding AreApart
  sort-AreApart le [] h = tt
  sort-AreApart le (v ∷ vs) h =
      insert-apart le v (sort le vs) (sort-All le _ vs h.0) (sort-AreApart le vs h.1)

  pub take-All {κ} : (P : V → Type κ) (n : ℕ) (vs : List V) → All P vs → All P (take n vs)
  take-All P zero vs h = tt
  take-All P (suc n) [] h = tt
  take-All P (suc n) (v ∷ vs) h = (h.0, take-All P n vs h.1)

  pub take-AreApart : (n : ℕ) (vs : List V) → AreApart id vs → AreApart id (take n vs)
  unfolding AreApart
  take-AreApart zero vs h = tt
  take-AreApart (suc n) [] h = tt
  take-AreApart (suc n) (v ∷ vs) h = (take-All _ n vs h.0, take-AreApart n vs h.1)

-- What holds of all elements and the test hold of all that the test keeps.
pub filter_by_sound {ℓ κ} :
    {V : Type ℓ} (P : V → Type κ) (q : V → Bool) (vs : List V)
    → All P vs
    → All (λ v. P v × (q v ≡ true)) (filter_by q vs)
filter_by_sound P q [] h = tt
filter_by_sound P q (v ∷ vs) h = elim (Bool-cases (q v)) [
  | inl t ↦ rw t ((h.0, t), filter_by_sound P q vs h.1)
  | inr f ↦ rw f (filter_by_sound P q vs h.1)
]

pub length-take_le {ℓ} : {V : Type ℓ} (n : ℕ) (vs : List V) → length (take n vs) ≤ n
length-take_le zero vs = omega arith
length-take_le (suc n) [] = omega arith
length-take_le (suc n) (v ∷ vs) = ground (arith, length-take_le n vs)

-- What is found under a key has this key as its identifier.
pub IsKeyed-key {ℓ} :
    {V : Type ℓ} (id : V → String) (k : String) (v : V) (m : Assoc V)
    → IsKeyed id m
    → get k m ≡ some v
    → k ≡ id v
unfolding IsKeyed get
IsKeyed-key id k v [] h e = cc
IsKeyed-key id k v ((j, w) ∷ m) (a, b, c) e = elim (Bool-cases (j == k)) [
  | inl t ↦ sym ((eq_iff j k).0 t) ∙ a ∙ ap id (some_inj (rw t at e))
  | inr f ↦ IsKeyed-key id k v m c (rw f at e)
]
