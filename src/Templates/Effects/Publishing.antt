-- ===== src/Templates/Effects/Publishing.antt =====
-- How a publication ends.
use hayasend.Base.{
  if◌then◌else◌, false, ℕ, ◌+◌, ◌≡◌, ◌≢◌, refl, sym, ap, ◌∙◌, ◌⊎◌, inl, inr, String, true, false,
  Option, none, some, ok, err, Error, Bool-cases, ◌==◌, string_eq, nat_eq, option_eq, not, beq_refl,
  beq→eq, precondition_failed, alias_in_use, conflict, true-ne-false, subst,
}
use hayasend.Base.Assoc.{get, has, get-put_same, get-put_ne}
use hayasend.Base.Assoc.Keyed.{IsKeyed}
use hayasend.Platform.{Platform}
use hayasend.Store.Pages.{truthy}
use hayasend.Catalog.State.{TemplateStore}
use hayasend.Catalog.Records.{TemplateRecord}
use hayasend.Catalog.Templates.{
  alias_owner, owned_by_other, at_revision, publish_template, published_template, published_alias,
  versions_of,
}
use hayasend.Templates.Publication
use hayasend.Templates.Publication.{
  TemplatePublicationContext, publish_found, publish_current, published_record, published_id,
  draft_changed, publication_times, publication_record,
}
use hayasend.Templates.Service.{World, Outcome, get_record, or_conflict, TemplateHistoryOptions}
use hayasend.Templates.Effects.Replacing.{owner_of_other}
use hayasend.Templates.Effects.{Result-ends, found_is_stored, Refused, Stores}

module _ (p : Platform) (history : TemplateHistoryOptions) where
  -- What stops a publication.
  abbrev pub PublishFails : String → ℕ → Option String → World → Error → Type 0
  PublishFails identifier now expected w e =
      (get_record identifier w.store ≡ err e)
      ⊎ (publication_times p history now ≡ err e)
      ⊎ ((current : TemplateRecord) × (get_record identifier w.store ≡ ok current)
          × (((e ≡ precondition_failed)
                × ((draft_id : String) × (expected ≡ some draft_id)
                    × (current.draft.id ≢ draft_id)))
              ⊎ ((e ≡ conflict) × (has current.draft.id (versions_of current.id w.store) ≡ true))
              ⊎ ((e ≡ alias_in_use)
                  × ((owner : String) × (alias_owner current.draft.alias
                          w.store.published_template_aliases
                        ≡ some owner)
                      × (owner ≢ current.id)))))

  -- The template that was read is published as its draft, at the next revision, and the store takes
  -- this publication with it, at the revision that was read.
  abbrev pub Publishes :
      TemplateRecord
      → String
      → String
      → TemplatePublicationContext
      → World
      → Outcome String
      → Type 0
  Publishes current timestamp expires_at context w out =
      let updated : TemplateRecord = record current {
        published = some current.draft;
        published_at = some timestamp;
        updated_at = timestamp;
        revision = current.revision + 1;
      } in
      (publish_template p updated
          (record {
            id = current.draft.id;
            template_id = current.id;
            version = current.draft;
            published_at = timestamp;
            expires_at = expires_at;
            actor = context.actor;
            source = context.source;
            source_version_id = truthy current.draft.source_version_id;
          })
          (published_alias current) current.revision history.limit w.store
        ≡ (ok true, out.1.store))
      × Stores w out updated

  -- A publication is stopped, or has nothing to do for a draft that is published, or publishes the
  -- draft of the template that it has read, at the next revision.
  abbrev pub PublishEnds :
      String → ℕ → Option String → TemplatePublicationContext → World → Outcome String → Type 0
  PublishEnds identifier now expected context w out =
      ((e : Error) × Refused w out e × PublishFails identifier now expected w e)
      ⊎ ((current : TemplateRecord) × (get_record identifier w.store ≡ ok current)
          × (((published_id current.published ≡ some current.draft.id)
                × (out.0 ≡ ok current.id)
                × (out.1.store ≡ w.store))
              ⊎ ((timestamp expires_at : String) × (publication_times p history now
                    ≡ ok (timestamp, expires_at))
                  × Publishes current timestamp expires_at context w out)))

  draft_changed_cases :
      (expected : Option String) (id : String)
      → draft_changed expected id ≡ true
      → (draft_id : String) × (expected ≡ some draft_id) × (id ≢ draft_id)
  unfolding draft_changed
  draft_changed_cases none id h = absurd (true-ne-false (sym h))
  draft_changed_cases (some x) id h =
      (x, refl, λ same. true-ne-false (sym h ∙ ap not (ap (λ y. y == x) same ∙ beq_refl x)))

  -- The call of the store for the template as it was read: its first guards pass.
  publish_at :
      (current : TemplateRecord) (context : TemplatePublicationContext)
      (timestamp expires_at : String) (s : TemplateStore)
      → get current.id s.templates ≡ some current
      → let updated = published_record current timestamp in
        let publication = publication_record current context timestamp expires_at in
        publish_template p updated publication
          (published_alias current)
          current.revision
          history.limit
          s
        ≡ (if has current.draft.id (versions_of current.id s)
            then (ok false, s)
            else if owned_by_other
                (alias_owner current.draft.alias s.published_template_aliases)
                current.id
            then (err alias_in_use, s)
            else (
              ok true,
              published_template p updated publication (published_alias current) history.limit s,
            ))
  unfolding publish_template published_record publication_record at_revision
  publish_at current context timestamp expires_at s at =
      rw (at, beq_refl current.revision, beq_refl current.id, beq_refl current.draft.id) refl

  -- The write of a publication.
  publish_current_ends :
      (identifier : String) (now : ℕ) (expected : Option String)
      (context : TemplatePublicationContext) (w : World) (current : TemplateRecord)
      → get current.id w.store.templates ≡ some current
      → get_record identifier w.store ≡ ok current
      → PublishEnds identifier now expected context w
          (publish_current p history current context now w (publication_times p history now))
  unfolding publish_current published_record publication_record published_template or_conflict
  publish_current_ends identifier now expected context w current at read =
      elim (Result-ends (publication_times p history now)) [
        | inl (e, h) ↦ rw h (inl (e, (refl, refl), inr (inl refl)))
        | inr ((timestamp, expires_at), h) ↦
            let call = publish_at current context timestamp expires_at w.store at in
            elim (Bool-cases (has current.draft.id (versions_of current.id w.store))) [
              | inl t ↦
                  rw (h, call, t)
                    (inl (conflict, (refl, refl), inr (inr (current, read, inr (inl (refl, t))))))
              | inr f ↦
                  elim (Bool-cases (
                    owned_by_other
                      (alias_owner current.draft.alias w.store.published_template_aliases)
                      current.id)) [
                        | inl t ↦
                            rw (h, call, f, t)
                              (inl (
                                alias_in_use,
                                (refl, refl),
                                inr (
                                    inr (
                                      current,
                                      read,
                                      inr (inr (refl, owner_of_other _ current.id t)),
                                    )),
                              ))
                        | inr g ↦
                            rw (h, call, f, g)
                              (inr (
                                current,
                                read,
                                inr (
                                  timestamp,
                                  expires_at,
                                  refl,
                                  (
                                    call ∙ rw (f, g) refl,
                                    (
                                      refl,
                                      get-put_same current.id current.id _ w.store.templates refl,
                                      λ other differ.
                                          get-put_ne current.id other _ w.store.templates differ,
                                    ),
                                  ),
                                ),
                              ))
                      ]
            ]
      ]

  pub publish_ends :
      (identifier : String) (now : ℕ) (expected : Option String)
      (context : TemplatePublicationContext) (w : World)
      → IsKeyed (λ r. r.id) w.store.templates
      → PublishEnds identifier now expected context w
          (Publication.publish p history identifier now expected context w)
  unfolding Publication.publish publish_found
  publish_ends identifier now expected context w keyed =
      elim (Result-ends (get_record identifier w.store)) [
        | inl (e, h) ↦ rw h (inl (e, (refl, refl), inl refl))
        | inr (current, h) ↦ elim (Bool-cases (draft_changed expected current.draft.id)) [
          | inl t ↦
              rw (h, t)
                (inl (
                  precondition_failed,
                  (refl, refl),
                  inr (inr (current, refl, inl (refl, draft_changed_cases _ _ t))),
                ))
          | inr f ↦ elim (Bool-cases (published_id current.published == some current.draft.id)) [
            | inl t ↦
                rw (h, f, t)
                  (inr (
                    current,
                    refl,
                    inl (
                      beq→eq (published_id current.published) (some current.draft.id) t,
                      refl,
                      refl,
                    ),
                  ))
            | inr g ↦
                let is : Publication.publish p history identifier now expected context w
                    ≡ publish_current p history current context now w
                        (publication_times p history now) =
                  rw (h, f, g) refl in
                subst (PublishEnds identifier now expected context w) (sym is) (
                  publish_current_ends identifier now expected context w current
                    (found_is_stored identifier w.store current keyed h) h)
          ]
        ]
      ]
