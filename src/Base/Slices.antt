-- ===== src/Base/Slices.antt =====
-- Array.prototype.slice, findIndex and at(-1).
use Prim.Native.Nat.{ℕ, zero, suc, ◌+◌, ◌≤◌, ◌<◌}
use Prim.Native.String.{String}
use mathlib.Core.Path.{◌≡◌, refl, ap, sym, ◌∙◌, subst}
use mathlib.Core.Bool.{Bool}
use mathlib.Core.Option.{Option, none, some}
use mathlib.Core.List.{List, [], ◌∷◌, ◌++◌}
use native.Mathlib.Omega.{arith}
use text.Mathlib.TextEquality.{eq_iff}
use hayasend.Base.Tests.{if◌then◌else◌, ◌==◌, string_eq, beq_ne, some_inj, none-ne-some}
use hayasend.Base.Lists.{length, take, All}
use hayasend.Base.Assoc.Keyed.{AreApart}

sum_suc : (m n : ℕ) → suc (m + n) ≡ suc m + n
sum_suc m n = omega arith

module _ {ℓ} {A : Type ℓ} where
  abbrev pub drop : ℕ → List A → List A
  drop zero xs = xs
  drop (suc n) [] = []
  drop (suc n) (x ∷ xs) = drop n xs

  abbrev pub last : List A → Option A
  last [] = none
  last (x ∷ []) = some x
  last (x ∷ y ∷ ys) = last (y ∷ ys)

  abbrev pub find_index : (A → Bool) → List A → Option ℕ
  find_index p [] = none
  find_index p (x ∷ xs) =
      let later : Option ℕ = elim (find_index p xs) [ none ↦ none | some i ↦ some (suc i) ] in
      if p x then some 0 else later

  abbrev pub get_elem? : List A → ℕ → Option A
  get_elem? [] i = none
  get_elem? (x ∷ xs) zero = some x
  get_elem? (x ∷ xs) (suc i) = get_elem? xs i

  drop_nil : (n : ℕ) → ◌≡◌ {A = List A} (drop n []) []
  drop_nil zero = refl
  drop_nil (suc n) = refl

  pub drop-drop : (m n : ℕ) (xs : List A) → drop n (drop m xs) ≡ drop (m + n) xs
  drop-drop zero n xs = ap (λ k. drop k xs) (omega arith)
  drop-drop (suc m) n [] = drop_nil n ∙ sym (drop_nil (suc m + n))
  drop-drop (suc m) n (x ∷ xs) = drop-drop m n xs ∙ ap (λ k. drop k (x ∷ xs)) (sum_suc m n)

  pub take-drop : (n : ℕ) (xs : List A) → take n xs ++ drop n xs ≡ xs
  take-drop zero xs = refl
  take-drop (suc n) [] = refl
  take-drop (suc n) (x ∷ xs) = ap (λ r. x ∷ r) (take-drop n xs)

  pub length-take : (n : ℕ) (xs : List A) → n ≤ length xs → length (take n xs) ≡ n
  length-take zero xs h = refl
  length-take (suc n) [] h = absurd (omega arith)
  length-take (suc n) (x ∷ xs) h = ap suc (length-take n xs (omega arith))

  pub take_all : (n : ℕ) (xs : List A) → length xs ≤ n → take n xs ≡ xs
  take_all zero [] h = refl
  take_all zero (x ∷ xs) h = absurd (omega arith)
  take_all (suc n) [] h = refl
  take_all (suc n) (x ∷ xs) h = ap (λ r. x ∷ r) (take_all n xs (omega arith))

  pub length-drop : (n : ℕ) (xs : List A) → n ≤ length xs → n + length (drop n xs) ≡ length xs
  length-drop zero xs h = omega arith
  length-drop (suc n) [] h = absurd (omega arith)
  length-drop (suc n) (x ∷ xs) h = omega (arith, length-drop n xs)

  -- What a slice ends with, by its place in the list.
  pub last-take : (n : ℕ) (xs : List A) → n < length xs → last (take (suc n) xs) ≡ get_elem? xs n
  last-take n [] h = absurd (omega arith)
  last-take zero (x ∷ xs) h = refl
  last-take (suc n) (x ∷ []) h = absurd (omega arith)
  last-take (suc n) (x ∷ y ∷ ys) h = last-take n (y ∷ ys) (omega arith)

  pub get_elem-some : (n : ℕ) (xs : List A) → n < length xs → (x : A) × (get_elem? xs n ≡ some x)
  get_elem-some n [] h = absurd (omega arith)
  get_elem-some zero (x ∷ xs) h = (x, refl)
  get_elem-some (suc n) (x ∷ xs) h = get_elem-some n xs (omega arith)

  pub get_elem-drop : (m n : ℕ) (xs : List A) → get_elem? (drop m xs) n ≡ get_elem? xs (m + n)
  get_elem-drop zero n xs = ap (get_elem? xs) (omega arith)
  get_elem-drop (suc m) n [] = refl
  get_elem-drop (suc m) n (x ∷ xs) = get_elem-drop m n xs ∙ ap (get_elem? (x ∷ xs)) (sum_suc m n)

  pub get_elem-All {κ} :
      (P : A → Type κ) (n : ℕ) (xs : List A) (x : A) → All P xs → get_elem? xs n ≡ some x → P x
  get_elem-All P n [] x h e = absurd (none-ne-some e)
  get_elem-All P zero (y ∷ ys) x h e = subst P (some_inj e) h.0
  get_elem-All P (suc n) (y ∷ ys) x h e = get_elem-All P n ys x h.1 e

  -- Under an identifier that no two share, a search finds the place.
  pub find_index-get_elem :
      (id : A → String) (n : ℕ) (xs : List A) (x : A)
      → AreApart id xs
      → get_elem? xs n ≡ some x
      → find_index (λ y. id y == id x) xs ≡ some n
  unfolding AreApart
  find_index-get_elem id n [] x h e = absurd (none-ne-some e)
  find_index-get_elem id zero (y ∷ ys) x h e =
      ground (arith, eq_iff (id y) (id x), eq_iff (id x) (id x))
  find_index-get_elem id (suc n) (y ∷ ys) x h e = ground (
    arith,
    beq_ne (id y) (id x) (get_elem-All _ n ys x h.0 e),
    find_index-get_elem id n ys x h.1 e,
  )
