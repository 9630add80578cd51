-- ===== src/Catalog/Templates/Retained.antt =====
-- What a publication leaves of the versions: the map that `versions.clear()` and the calls of `set`
-- build, and which versions are in it.
use hayasend.Base.{
  ℕ, ◌≡◌, ◌≢◌, refl, sym, ap, ◌∙◌, subst, String, true, false, List, [], ◌∷◌, ◌++◌, none, ◌⊎◌,
  length, take, sort, All, All-map, All-of, ◌==◌, string_eq, Bool-cases, inl, inr, arith,
  none-ne-some,
}
use mathlib.Core.List.{Permᴰ}
use hayasend.Base.Assoc.{Assoc, get, put, values, get-put_ne}
use hayasend.Base.Assoc.Keyed.{
  IsKeyed, IsKeyed-get, IsKeyed-AreApart, AreApart, sort-AreApart, take-AreApart,
}
use hayasend.Base.Slices.{drop, take-drop}
use hayasend.Base.Sorted.{sort-perm, sort-Sorted, Sorted-take, take_or_all}
use hayasend.Platform.{Platform}
use hayasend.Store.Pages.{locale_le_then}
use hayasend.Catalog.Records.{TemplatePublicationRecord}
use hayasend.Catalog.Templates.{newer_publication, version_map, retained_versions}

-- `localeCompare` orders texts: of two, one comes first or both are the same, and the order is
-- transitive.
pub record Orders (p : Platform) : Type 0 where
  pub total : (a b : String) → p.locale_le a b ≡ false → p.locale_le b a ≡ true
  pub chain :
      (a b c : String) → p.locale_le a b ≡ true → p.locale_le b c ≡ true → p.locale_le a c ≡ true

abbrev pub AtLeastAsNew : Platform → TemplatePublicationRecord → TemplatePublicationRecord → Type 0
AtLeastAsNew p v u = p.locale_le u.published_at v.published_at ≡ true

values-put_new {ℓ} :
    {V : Type ℓ} (k : String) (v : V) (m : Assoc V)
    → get k m ≡ none
    → values (put k v m) ≡ values m ++ v ∷ []
unfolding put get
values-put_new k v [] h = refl
values-put_new k v ((j, w) ∷ m) h = elim (Bool-cases (j == k)) [
  | inl t ↦ absurd (none-ne-some (sym (rw t at h)))
  | inr f ↦ rw f (ap (λ r. w ∷ r) (values-put_new k v m (rw f at h)))
]

append_cons {ℓ} :
    {A : Type ℓ} (xs : List A) (y : A) (ys : List A) → (xs ++ y ∷ []) ++ ys ≡ xs ++ y ∷ ys
append_cons [] y ys = refl
append_cons (x ∷ xs) y ys = ap (λ r. x ∷ r) (append_cons xs y ys)

abbrev Version : Type 0
Version = TemplatePublicationRecord

values-version_map_onto :
    (vs : List Version) (m : Assoc Version)
    → All (λ v. get v.id m ≡ none) vs
    → AreApart (λ v. v.id) vs
    → values (version_map vs m) ≡ values m ++ vs
unfolding version_map AreApart
values-version_map_onto [] m h apart = sym (append_nil (values m))
  where
    append_nil : (xs : List Version) → xs ++ [] ≡ xs
    append_nil [] = refl
    append_nil (x ∷ xs) = ap (λ r. x ∷ r) (append_nil xs)
values-version_map_onto (v ∷ vs) m (new, h) (here, apart) =
    values-version_map_onto vs (put v.id v m) (still vs h here) apart
    ∙ ap (λ r. r ++ vs) (values-put_new v.id v m new)
    ∙ append_cons (values m) v vs
  where
    still :
        (ws : List Version)
        → All (λ w. get w.id m ≡ none) ws
        → All (λ w. v.id ≢ w.id) ws
        → All (λ w. get w.id (put v.id v m) ≡ none) ws
    still [] a b = tt
    still (w ∷ ws) a b = (get-put_ne v.id w.id v m b.0 ∙ a.0, still ws a.1 b.1)

-- The map that is built holds the versions, in their order.
pub values-version_map :
    (vs : List Version) → AreApart (λ v. v.id) vs → values (version_map vs []) ≡ vs
unfolding get
values-version_map vs apart = values-version_map_onto vs [] (All-of (λ v. refl) vs) apart

snoc-AreApart :
    (vs : List Version) (u : Version)
    → All (λ v. v.id ≢ u.id) vs
    → AreApart (λ v. v.id) vs
    → AreApart (λ v. v.id) (vs ++ u ∷ [])
unfolding AreApart
snoc-AreApart [] u h apart = (tt, tt)
snoc-AreApart (v ∷ vs) u (differ, h) (here, apart) = (behind vs here, snoc-AreApart vs u h apart)
  where
    behind : (ws : List Version) → All (λ w. v.id ≢ w.id) ws → All (λ w. v.id ≢ w.id) (ws ++ u ∷ [])
    behind [] a = (differ, tt)
    behind (w ∷ ws) a = (a.0, behind ws a.1)

module _ (p : Platform) (orders : Orders p) where
  newer_yes : (v u : Version) → newer_publication p v u ≡ true → AtLeastAsNew p v u
  unfolding newer_publication locale_le_then
  newer_yes v u h = ground arith

  newer_no : (v u : Version) → newer_publication p v u ≡ false → AtLeastAsNew p u v
  unfolding newer_publication locale_le_then
  newer_no v u h = ground (arith, orders.total u.published_at v.published_at)

  -- The versions that a publication keeps, and those that it drops.
  module _ (publication : Version) (limit : ℕ) (versions : Assoc Version)
      (keyed : IsKeyed (λ v. v.id) versions) (new : get publication.id versions ≡ none) where
    abbrev all_versions : List Version
    all_versions = sort (newer_publication p) (values versions ++ publication ∷ [])

    all_apart : AreApart (λ v. v.id) all_versions
    all_apart =
        sort-AreApart (λ v. v.id) (newer_publication p) _
          (snoc-AreApart (values versions) publication
            (All-map
              (λ v at same. none-ne-some (sym new ∙ ap (λ i. get i versions) (sym same) ∙ at))
              (values versions) (IsKeyed-get (λ v. v.id) versions keyed))
            (IsKeyed-AreApart (λ v. v.id) versions keyed))

    -- Some versions are dropped, none of which is newer than one that is kept, and only if as many
    -- are kept as may be.
    pub kept_are_newest :
        let kept = values (version_map (retained_versions p publication limit versions) []) in
        (dropped : List TemplatePublicationRecord) × Permᴰ
          (kept ++ dropped)
          (values versions ++ publication ∷ [])
        × All (λ v. All (λ u. p.locale_le u.published_at v.published_at ≡ true) dropped) kept
        × ((length kept ≡ limit) ⊎ (dropped ≡ []))
    unfolding retained_versions
    kept_are_newest =
        rw
          (values-version_map (take limit all_versions)
            (take-AreApart (λ v. v.id) limit _ all_apart))
          (
            drop limit all_versions,
            subst (λ xs. Permᴰ xs (values versions ++ publication ∷ []))
                (sym (take-drop limit all_versions)) (sort-perm (newer_publication p) _),
            Sorted-take (AtLeastAsNew p) limit all_versions (
                sort-Sorted (AtLeastAsNew p) (newer_publication p) newer_yes newer_no
                  (λ x y z a b. orders.chain z.published_at y.published_at x.published_at b a)
                  (values versions ++ publication ∷ [])),
            take_or_all limit all_versions,
          )
