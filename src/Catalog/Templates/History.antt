-- ===== src/Catalog/Templates/History.antt =====
-- The history of a template's publications: bounded, with the newest versions.
use hayasend.Base.{
  ℕ, suc, ◌+◌, ◌≤◌, ◌≡◌, refl, sym, ap, String, Bool, true, false, List, [], ◌∷◌, ◌++◌, Option,
  some, ok, err, ◌≢◌, Result, alias_in_use, if◌then◌else◌, string_eq, arith, length, take, sort,
  ok_inj, err-ne-ok, true-ne-false, All, ◌⊎◌, ◌||◌, none, is_some, not, ◌==◌,
}
use mathlib.Core.List.{Permᴰ}
use hayasend.Base.Assoc.{Assoc, get, put, values, get-put_same, get-put_ne}
use hayasend.Base.Assoc.Keyed.{IsKeyed, length-take_le}
use hayasend.Platform.{Platform}
use hayasend.Catalog.Templates.Retained.{Orders, kept_are_newest}
use hayasend.Catalog.Records.{TemplateRecord, TemplatePublicationRecord}
use hayasend.Catalog.State.{TemplateStore}
use hayasend.Catalog.Templates.{
  publish_template, published_template, versions_of, or_empty, at_revision, newer_publication,
  version_map, retained_versions,
}

length-put_le {ℓ} :
    {V : Type ℓ} (k : String) (v : V) (m : Assoc V) → length (put k v m) ≤ suc (length m)
unfolding put
length-put_le k v [] = omega arith
length-put_le k v ((j, w) ∷ m) = ground (arith, length-put_le k v m)

length-version_map_le :
    (vs : List TemplatePublicationRecord) (m : Assoc TemplatePublicationRecord)
    → length (version_map vs m) ≤ length vs + length m
unfolding version_map
length-version_map_le [] m = omega arith
length-version_map_le (v ∷ vs) m =
    omega (arith, length-version_map_le vs (put v.id v m), length-put_le v.id v m)

module _ (p : Platform) (r : TemplateRecord) (publication : TemplatePublicationRecord)
    (previous : Option String) (limit : ℕ) (s : TemplateStore) where
  written : TemplateStore
  written = published_template p r publication previous limit s

  published_bounded : length (versions_of r.id written) ≤ limit
  unfolding written published_template versions_of or_empty retained_versions
  published_bounded = rw (get-put_same r.id r.id _ s.template_versions refl) (
      omega (
        arith,
        length-version_map_le
            (take limit
              (sort (newer_publication p) (values (versions_of r.id s) ++ publication ∷ [])))
            [],
        length-take_le limit
            (sort (newer_publication p) (values (versions_of r.id s) ++ publication ∷ [])),
      ))

  others_unchanged :
      (other : String) → r.id ≢ other → versions_of other written ≡ versions_of other s
  unfolding written published_template versions_of
  others_unchanged other differ = ap or_empty (get-put_ne r.id other _ s.template_versions differ)

  kept :
      (orders : Orders p)
      → IsKeyed (λ v. v.id) (versions_of r.id s)
      → get publication.id (versions_of r.id s) ≡ none
      → (dropped : List TemplatePublicationRecord) × Permᴰ
          (values (versions_of r.id written) ++ dropped)
          (values (versions_of r.id s) ++ publication ∷ [])
        × All
            (λ v. All (λ u. p.locale_le u.published_at v.published_at ≡ true) dropped)
            (values (versions_of r.id written))
        × ((length (values (versions_of r.id written)) ≡ limit) ⊎ (dropped ≡ []))
  unfolding written published_template versions_of or_empty
  kept orders keyed new =
      rw (get-put_same r.id r.id _ s.template_versions refl)
        (kept_are_newest p orders publication limit (versions_of r.id s) keyed new)

  stored : get r.id written.templates ≡ some r
  unfolding written published_template
  stored = get-put_same r.id r.id r s.templates refl

-- A write that gives `true` has written, for no refusal held.
written_cases :
    (b taken : Bool) (s t : TemplateStore)
    → let out : Result Bool × TemplateStore =
        if b then (ok false, s) else if taken then (err alias_in_use, s) else (ok true, t) in
      out.0 ≡ ok true → (b ≡ false) × (out.1 ≡ t)
written_cases true taken s t h = absurd (true-ne-false (sym (ok_inj h)))
written_cases false true s t h = absurd (err-ne-ok h)
written_cases false false s t h = (refl, refl)

is_absent :
    (o : Option TemplatePublicationRecord) (a b c : Bool)
    → (a || b || c || is_some o) ≡ false
    → o ≡ none
is_absent none a b c h = refl
is_absent (some v) a b c h = absurd (ground arith)

-- With the order of `localeCompare`, and where the template's history keeps each version under its
-- own identifier: a publication that succeeds stores its record, and touches no history of another
-- template. The template's history is then, of the versions that it had and the new publication,
-- the newest: some of them are dropped, of which none was published after one that is kept, and
-- there are at most as many as the limit, and fewer only where nothing is dropped.
pub publish_template_history :
    (p : Platform) (orders : Orders p) (r : TemplateRecord)
    (publication : TemplatePublicationRecord) (previous : Option String) (revision limit : ℕ)
    (s : TemplateStore)
    → IsKeyed (λ v. v.id) (versions_of r.id s)
    → (publish_template p r publication previous revision limit s).0 ≡ ok true
    → let t = (publish_template p r publication previous revision limit s).1 in
      (get r.id t.templates ≡ some r)
      × (length (versions_of r.id t) ≤ limit)
      × ((other : String) → r.id ≢ other → versions_of other t ≡ versions_of other s)
      × ((dropped : List TemplatePublicationRecord) × Permᴰ
            (values (versions_of r.id t) ++ dropped)
            (values (versions_of r.id s) ++ publication ∷ [])
          × All
              (λ v. All (λ u. p.locale_le u.published_at v.published_at ≡ true) dropped)
              (values (versions_of r.id t))
          × ((length (values (versions_of r.id t)) ≡ limit) ⊎ (dropped ≡ [])))
unfolding publish_template written
publish_template_history p orders r publication previous revision limit s keyed done =
    let (passed, is) =
      written_cases _ _ s (published_template p r publication previous limit s) done in
    rw is (
      stored p r publication previous limit s,
      published_bounded p r publication previous limit s,
      others_unchanged p r publication previous limit s,
      kept p r publication previous limit s orders keyed (
          is_absent (get publication.id (versions_of r.id s))
            (not (at_revision (get r.id s.templates) revision))
            (not (publication.template_id == r.id)) (not (publication.id == publication.version.id))
            passed),
    )
