-- ===== src/Base/Assoc.antt =====
-- JavaScript's `Map` with text keys: the entries in their order of insertion; `put` on a key that
-- is there keeps the entry's place.
pub mod Keyed
use Prim.Native.String.{String}
use mathlib.Core.Path.{◌≡◌, refl, sym, ◌∙◌}
use mathlib.Core.Logic.{◌≢◌, ◌⊎◌, inl, inr}
use mathlib.Core.Bool.{Bool, true, false}
use mathlib.Core.Option.{Option, none, some}
use mathlib.Core.List.{List, [], ◌∷◌, map}
use native.Mathlib.Omega.{arith}
use text.Mathlib.TextEquality.{eq_iff}
use hayasend.Base.Tests.{if◌then◌else◌, ◌==◌, string_eq, is_some, beq_ne, Bool-cases, true-ne-false}

abbrev pub Assoc {ℓ} : Type ℓ → Type ℓ
Assoc V = List (String × V)

module _ {ℓ} {V : Type ℓ} where
  unfoldable pub get : String → Assoc V → Option V
  get k [] = none
  get k ((j, v) ∷ m) = let rest = get k m in if j == k then some v else rest

  abbrev pub has : String → Assoc V → Bool
  has k m = is_some (get k m)

  unfoldable pub put : String → V → Assoc V → Assoc V
  put k v [] = (k, v) ∷ []
  put k v ((j, w) ∷ m) = let rest = put k v m in if j == k then (j, v) ∷ m else (j, w) ∷ rest

  unfoldable pub remove : String → Assoc V → Assoc V
  remove k [] = []
  remove k ((j, w) ∷ m) = let rest = remove k m in if j == k then rest else (j, w) ∷ rest

  abbrev pub values : Assoc V → List V
  values m = map (λ e. e.1) m

  pub get-put :
      (k j : String) (v : V) (m : Assoc V)
      → get j (put k v m) ≡ (if k == j then some v else get j m)
  unfolding get put
  get-put k j v [] = refl
  get-put k j v ((i, w) ∷ m) = ground (arith, eq_iff k j, eq_iff i k, eq_iff i j, get-put k j v m)

  pub get-remove :
      (k j : String) (m : Assoc V) → get j (remove k m) ≡ (if k == j then none else get j m)
  unfolding get remove
  get-remove k j [] = ground arith
  get-remove k j ((i, w) ∷ m) = ground (arith, eq_iff k j, eq_iff i k, eq_iff i j, get-remove k j m)

  pub get-put_same : (k j : String) (v : V) (m : Assoc V) → k ≡ j → get j (put k v m) ≡ some v
  get-put_same k j v m h = get-put k j v m ∙ rw ((eq_iff k j).1 h) refl

  pub get-put_ne : (k j : String) (v : V) (m : Assoc V) → k ≢ j → get j (put k v m) ≡ get j m
  get-put_ne k j v m h = get-put k j v m ∙ rw (beq_ne k j h) refl

  pub get-remove_ne : (k j : String) (m : Assoc V) → k ≢ j → get j (remove k m) ≡ get j m
  get-remove_ne k j m h = get-remove k j m ∙ rw (beq_ne k j h) refl

  pub get-remove_same : (k j : String) (m : Assoc V) → k ≡ j → get j (remove k m) ≡ none
  get-remove_same k j m h = get-remove k j m ∙ rw ((eq_iff k j).1 h) refl

pub text_cases : (a b : String) → (a ≡ b) ⊎ (a ≢ b)
text_cases a b = elim (Bool-cases (a == b)) [
  | inl t ↦ inl ((eq_iff a b).0 t)
  | inr f ↦ inr (λ e. true-ne-false (sym ((eq_iff a b).1 e) ∙ f))
]
