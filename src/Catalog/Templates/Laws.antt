-- ===== src/Catalog/Templates/Laws.antt =====
-- The aliases of the templates over every sequence of the store's operations, and that a write at a
-- revision that has passed is refused.
use hayasend.Base.{
  ℕ, ◌≡◌, ◌≢◌, refl, sym, ap, ◌∙◌, String, Bool, true, false, not, ◌||◌, Option, none, some, Result,
  ok, err, inl, inr, if◌then◌else◌, ◌==◌, string_eq, nat_eq, beq→eq, beq_ne, some_inj, none-ne-some,
  ok_inj, err-ne-ok, true-ne-false, arith, alias_in_use, Bool-cases, or_false, not-false, is_some,
  [],
}
use hayasend.Base.Assoc.{Assoc, get, has, get-put_same}
use hayasend.Platform.{Platform}
use hayasend.Catalog.Records.{TemplateRecord, TemplatePublicationRecord}
use hayasend.Catalog.State.{TemplateStore}
use hayasend.Catalog.Templates.{
  published_alias, draft_alias, alias_owner, drop_alias, owned_by_other, at_revision,
  create_template, replace_template, replaced_template, publish_template, published_template,
  delete_template, delete_current, deleted_template,
}
use hayasend.Catalog.Templates.Index.{
  IsIndex, move-IsIndex, keep-IsIndex, new-IsIndex, remove-IsIndex,
}

-- The two maps of aliases are right.
pub record IsIndexed (s : TemplateStore) : Type 0 where
  pub drafts : IsIndex draft_alias s.templates s.template_aliases
  pub publications : IsIndex published_alias s.templates s.published_template_aliases

-- One call of the store. What a caller read at the expected revision is what it hands back: the
-- alias that it moves from, and the alias that its operation does not move.
pub data TemplateStep (p : Platform) : TemplateStore → TemplateStore → Type 0 where
  create :
      (r : TemplateRecord) (s : TemplateStore)
      → published_alias r ≡ none
      → TemplateStep p s (create_template r s).1
  replace :
      (r : TemplateRecord) (previous : Option String) (revision : ℕ) (s : TemplateStore)
      → ((c : TemplateRecord)
          → get r.id s.templates ≡ some c
          → c.revision ≡ revision
          → (draft_alias c ≡ previous) × (published_alias c ≡ published_alias r))
      → TemplateStep p s (replace_template r previous revision s).1
  publish :
      (r : TemplateRecord) (publication : TemplatePublicationRecord) (previous : Option String)
      (revision limit : ℕ) (s : TemplateStore)
      → ((c : TemplateRecord)
          → get r.id s.templates ≡ some c
          → c.revision ≡ revision
          → (published_alias c ≡ previous) × (draft_alias c ≡ draft_alias r))
      → TemplateStep p s (publish_template p r publication previous revision limit s).1
  delete :
      (id : String) (revision : ℕ) (s : TemplateStore)
      → TemplateStep p s (delete_template id revision s).1

pub data TemplateHistory (p : Platform) (s : TemplateStore) : TemplateStore → Type 0 where
  start : TemplateHistory p s s
  next : {t u : TemplateStore} → TemplateHistory p s t → TemplateStep p t u → TemplateHistory p s u

at_revision-true :
    (o : Option TemplateRecord) (revision : ℕ)
    → at_revision o revision ≡ true
    → (c : TemplateRecord) × (o ≡ some c) × (c.revision ≡ revision)
unfolding at_revision
at_revision-true none revision h = absurd (true-ne-false (sym h))
at_revision-true (some c) revision h = (c, refl, beq→eq c.revision revision h)

-- The owner of an alias that no other has.
owner_free :
    (o : Option String) (id : String) (m : Assoc String)
    → owned_by_other (alias_owner o m) id ≡ false
    → (a owner : String) → o ≡ some a
    → get a m ≡ some owner
    → owner ≡ id
unfolding owned_by_other alias_owner
owner_free none id m h a owner e at = absurd (none-ne-some e)
owner_free (some b) id m h a owner e at =
    let here : get b m ≡ some owner = ap (λ k. get k m) (some_inj e) ∙ at in
    beq→eq owner id (not-false (owner == id) (rw here at h))

no_owner :
    (o : Option String) (id : String) (m : Assoc String)
    → is_some (alias_owner o m) ≡ false
    → (a owner : String) → o ≡ some a
    → get a m ≡ some owner
    → owner ≡ id
unfolding alias_owner
no_owner none id m h a owner e at = absurd (none-ne-some e)
no_owner (some b) id m h a owner e at =
    let here : get b m ≡ some owner = ap (λ k. get k m) (some_inj e) ∙ at in
    absurd (true-ne-false (rw here at h))

get_of_has_not : (o : Option TemplateRecord) → is_some o ≡ false → o ≡ none
get_of_has_not none h = refl
get_of_has_not (some c) h = absurd (true-ne-false h)

create-IsIndexed :
    (r : TemplateRecord) (s : TemplateStore)
    → published_alias r ≡ none
    → IsIndexed s
    → IsIndexed (create_template r s).1
unfolding create_template drop_alias
create-IsIndexed r s bare v = elim (Bool-cases (has r.id s.templates || is_some owner)) [
  | inl t ↦ rw t v
  | inr f ↦
      let (absent, unowned) = or_false (has r.id s.templates) (is_some owner) f in
      let new : get r.id s.templates ≡ none = get_of_has_not _ absent in
      rw f (record {
        drafts =
            move-IsIndex draft_alias r.id r none s.templates s.template_aliases v.drafts
              (λ c at. absurd (none-ne-some (sym new ∙ at))) (λ a e. absurd (none-ne-some e))
              (no_owner r.draft.alias r.id s.template_aliases unowned);
        publications =
            new-IsIndex published_alias r.id r s.templates s.published_template_aliases
              v.publications new bare;
      })
]
  where
    owner : Option String
    owner = alias_owner r.draft.alias s.template_aliases

replaced-IsIndexed :
    (r c : TemplateRecord) (previous : Option String) (s : TemplateStore)
    → get r.id s.templates ≡ some c
    → draft_alias c ≡ previous
    → published_alias c ≡ published_alias r
    → owned_by_other (alias_owner r.draft.alias s.template_aliases) r.id ≡ false
    → IsIndexed s
    → IsIndexed (replaced_template r previous s)
unfolding replaced_template
replaced-IsIndexed r c previous s at mine same free v = record {
  drafts =
      move-IsIndex draft_alias r.id r previous s.templates s.template_aliases v.drafts
        (λ d here. ap draft_alias (some_inj (sym here ∙ at)) ∙ mine)
        (λ a e. v.drafts.lists r.id a c at (mine ∙ e))
        (owner_free r.draft.alias r.id s.template_aliases free);
  publications =
      keep-IsIndex published_alias r.id r c s.templates s.published_template_aliases v.publications
        at same;
}

published-IsIndexed :
    (p : Platform) (r c : TemplateRecord) (publication : TemplatePublicationRecord)
    (previous : Option String) (limit : ℕ) (s : TemplateStore)
    → get r.id s.templates ≡ some c
    → published_alias c ≡ previous
    → draft_alias c ≡ draft_alias r
    → owned_by_other (alias_owner (published_alias r) s.published_template_aliases) r.id ≡ false
    → IsIndexed s
    → IsIndexed (published_template p r publication previous limit s)
unfolding published_template
published-IsIndexed p r c publication previous limit s at mine same free v = record {
  drafts = keep-IsIndex draft_alias r.id r c s.templates s.template_aliases v.drafts at same;
  publications =
      move-IsIndex published_alias r.id r previous s.templates s.published_template_aliases
        v.publications (λ d here. ap published_alias (some_inj (sym here ∙ at)) ∙ mine)
        (λ a e. v.publications.lists r.id a c at (mine ∙ e))
        (owner_free (published_alias r) r.id s.published_template_aliases free);
}

-- The three ends of a write at an expected revision: refused, an alias of another, or written.
write_cases :
    (b taken : Bool) (s t : TemplateStore) (P : TemplateStore → Type 0)
    → P s
    → (b ≡ false → taken ≡ false → P t)
    → let out : Result Bool × TemplateStore =
        if b then (ok false, s) else if taken then (err alias_in_use, s) else (ok true, t) in
      P out.1
write_cases true taken s t P h k = h
write_cases false true s t P h k = h
write_cases false false s t P h k = k refl refl

delete-IsIndexed :
    (o : Option TemplateRecord) (id : String) (revision : ℕ) (s : TemplateStore)
    → get id s.templates ≡ o
    → IsIndexed s
    → IsIndexed (delete_current o id revision s).1
unfolding delete_current deleted_template
delete-IsIndexed none id revision s at v = v
delete-IsIndexed (some c) id revision s at v = elim (Bool-cases (c.revision == revision)) [
  | inl t ↦ rw t (record {
    drafts = remove-IsIndex draft_alias id c s.templates s.template_aliases v.drafts at;
    publications =
        remove-IsIndex published_alias id c s.templates s.published_template_aliases v.publications
          at;
  })
  | inr f ↦ rw f v
]

first_false : (a b c d : Bool) → (a || b || c || d) ≡ false → a ≡ false
first_false a b c d h = ground arith

pub step-IsIndexed :
    (p : Platform) (s t : TemplateStore) → TemplateStep p s t → IsIndexed s → IsIndexed t
unfolding replace_template publish_template delete_template
step-IsIndexed p _ _ (create r s bare) v = create-IsIndexed r s bare v
step-IsIndexed p _ _ (replace r previous revision s told) v =
    write_cases _ _ s _ IsIndexed v λ current free.
      let (c, at, now) = at_revision-true _ revision (not-false _ current) in
      let (mine, same) = told c at now in replaced-IsIndexed r c previous s at mine same free v
step-IsIndexed p _ _ (publish r publication previous revision limit s told) v =
    write_cases _ _ s _ IsIndexed v λ current free.
      let (c, at, now) = at_revision-true _ revision (not-false _ (first_false _ _ _ _ current)) in
      let (mine, same) = told c at now in
      published-IsIndexed p r c publication previous limit s at mine same free v
step-IsIndexed p _ _ (delete id revision s) v = delete-IsIndexed _ id revision s refl v

empty-IsIndexed :
    (s : TemplateStore)
    → s.templates ≡ []
    → s.template_aliases ≡ []
    → s.published_template_aliases ≡ []
    → IsIndexed s
unfolding get
empty-IsIndexed s a b c = record {
  drafts = record {
    leads = λ k i e. absurd (none-ne-some (rw b at e));
    lists = λ i k r e _. absurd (none-ne-some (rw a at e));
  };
  publications = record {
    leads = λ k i e. absurd (none-ne-some (rw c at e));
    lists = λ i k r e _. absurd (none-ne-some (rw a at e));
  };
}

-- Over every sequence of calls from an empty store, where each call hands back what it read at the
-- revision that it expects: a draft's alias leads to this template, so that no two templates share
-- one, and every alias leads to a template that has it; so too for the published aliases.
pub template_aliases_lead :
    (p : Platform) (s t : TemplateStore)
    → s.templates ≡ []
    → s.template_aliases ≡ []
    → s.published_template_aliases ≡ []
    → TemplateHistory p s t
    → IsIndexed t
template_aliases_lead p s _ a b c start = empty-IsIndexed s a b c
template_aliases_lead p s u a b c (next {t} before step) =
    step-IsIndexed p t u step (template_aliases_lead p s t a b c before)

-- a call that expects a revision at which the template no longer is leaves the store as it was and
-- says so
pub stale_write_is_refused :
    (p : Platform) (c r : TemplateRecord) (publication : TemplatePublicationRecord)
    (previous : Option String) (revision limit : ℕ) (s : TemplateStore)
    → get r.id s.templates ≡ some c
    → c.revision ≢ revision
    → (replace_template r previous revision s ≡ (ok false, s))
      × (publish_template p r publication previous revision limit s ≡ (ok false, s))
      × (delete_template r.id revision s ≡ (false, s))
unfolding replace_template publish_template delete_template delete_current at_revision
stale_write_is_refused p c r publication previous revision limit s at stale =
    rw (at, beq_ne c.revision revision stale) (refl, refl, refl)

-- what a replacement that succeeds leaves under its identifier
replaced_is_stored :
    (r : TemplateRecord) (previous : Option String) (revision : ℕ) (s : TemplateStore)
    → (replace_template r previous revision s).0 ≡ ok true
    → get r.id (replace_template r previous revision s).1.templates ≡ some r
unfolding replace_template replaced_template
replaced_is_stored r previous revision s h =
    elim (Bool-cases (not (at_revision (get r.id s.templates) revision))) [
      | inl t ↦ absurd (true-ne-false (sym (ok_inj (rw t at h))))
      | inr f ↦
          elim (Bool-cases (owned_by_other (alias_owner r.draft.alias s.template_aliases) r.id)) [
            | inl t ↦ absurd (err-ne-ok (rw (f, t) at h))
            | inr g ↦ rw (f, g) (get-put_same r.id r.id r s.templates refl)
          ]
    ]

-- Of two writers that read a template at one revision, the second loses: after a replacement that
-- succeeded and whose record carries another revision, a replacement, a publication and a deletion
-- of this template that expect the old revision all say so and leave the store as it is.
pub one_writer_wins :
    (p : Platform) (first second : TemplateRecord) (publication : TemplatePublicationRecord)
    (previous other : Option String) (revision limit : ℕ) (s : TemplateStore)
    → second.id ≡ first.id
    → first.revision ≢ revision
    → (replace_template first previous revision s).0 ≡ ok true
    → let t = (replace_template first previous revision s).1 in
      (replace_template second other revision t ≡ (ok false, t))
      × (publish_template p second publication other revision limit t ≡ (ok false, t))
      × (delete_template second.id revision t ≡ (false, t))
one_writer_wins p first second publication previous other revision limit s same moved done =
    stale_write_is_refused p first second publication other revision limit _
      (ap (λ i. get i (replace_template first previous revision s).1.templates) same
        ∙ replaced_is_stored first previous revision s done)
      moved
