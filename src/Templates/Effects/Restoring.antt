-- ===== src/Templates/Effects/Restoring.antt =====
-- How a restoration and a deletion end.
use hayasend.Base.{
  ℕ, suc, ◌≡◌, ◌≢◌, refl, sym, ap, ◌∙◌, ◌⊎◌, inl, inr, String, none, some, ok, err, Error,
  Bool-cases, ◌==◌, string_eq, nat_eq, beq_refl, beq→eq, precondition_failed, true-ne-false,
}
use hayasend.Base.Assoc.{get, get-remove_same, get-remove_ne}
use hayasend.Base.Assoc.Keyed.{IsKeyed}
use hayasend.Platform.{Platform, iso_of}
use hayasend.Catalog.Records.{TemplateRecord, TemplateVersion, TemplatePublicationRecord}
use hayasend.Catalog.Templates.{delete_template, delete_current, deleted_template}
use hayasend.Templates.Service
use hayasend.Templates.Validation.{validate_version}
use hayasend.Templates.Service.{
  Environment, World, Outcome, get_record, or_conflict, replace_planned, planned_update,
  planned_restore, redrafted, UpdateTemplateInput, update, restore_version, updated_variables,
  updated_version, updated_optional, or_previous, restored_draft, get_publication_record,
  delete_found,
}
use hayasend.Templates.Effects.{Result-ends, found_is_stored, Refused}
use hayasend.Templates.Effects.Replacing.{Redrafts, redraft_effect}

module _ (p : Platform) (env : Environment) where
  -- The draft of a version: its content, with the version that it comes from.
  abbrev pub of_version : TemplatePublicationRecord → ℕ → String → TemplateVersion
  of_version publication minted timestamp = record publication.version {
    id = env.create_id "tmplv" minted;
    created_at = timestamp;
    source_version_id = some publication.id;
  }

  -- What stops a restoration before it writes.
  abbrev pub RestoreFails : String → String → String → ℕ → World → Error → Type 0
  RestoreFails identifier version_id expected now w e =
      (get_record identifier w.store ≡ err e)
      ⊎ (iso_of p now ≡ err e)
      ⊎ ((current : TemplateRecord) × (get_record identifier w.store ≡ ok current)
          × (((e ≡ precondition_failed) × (current.draft.id ≢ expected))
              ⊎ (get_publication_record p current version_id now w.store ≡ err e)
              ⊎ ((publication : TemplatePublicationRecord) × (timestamp : String)
                  × (get_publication_record p current version_id now w.store ≡ ok publication)
                  × (validate_version env.stringify (of_version publication w.minted timestamp)
                      ≡ err e))))

  -- A restoration is stopped, or gives the template that it has read, whose draft is the expected
  -- one, the content of the version.
  abbrev pub RestoreEnds : String → String → String → ℕ → World → Outcome String → Type 0
  RestoreEnds identifier version_id expected now w out =
      ((e : Error) × Refused w out e × RestoreFails identifier version_id expected now w e)
      ⊎ ((current : TemplateRecord) × (publication : TemplatePublicationRecord)
          × (timestamp : String) × (get_record identifier w.store ≡ ok current)
          × (current.draft.id ≡ expected)
          × (get_publication_record p current version_id now w.store ≡ ok publication)
          × (iso_of p now ≡ ok timestamp)
          × Redrafts w out current (of_version publication w.minted timestamp) timestamp)

  pub restore_ends :
      (identifier version_id expected : String) (now : ℕ) (w : World)
      → IsKeyed (λ r. r.id) w.store.templates
      → RestoreEnds identifier version_id expected now w
          (restore_version p env identifier version_id expected now w)
  unfolding restore_version planned_restore replace_planned restored_draft
  restore_ends identifier version_id expected now w keyed =
      elim (Result-ends (get_record identifier w.store)) [
        | inl (e, h) ↦ rw h (inl (e, (refl, refl), inl refl))
        | inr (current, h) ↦ elim (Bool-cases (current.draft.id == expected)) [
          | inr f ↦
              rw (h, f)
                (inl (
                  precondition_failed,
                  (refl, refl),
                  inr (
                      inr (
                        current,
                        refl,
                        inl (
                          refl,
                          λ same.
                              true-ne-false
                                (sym (ap (λ x. x == expected) same ∙ beq_refl expected) ∙ f),
                        ),
                      )),
                ))
          | inl t ↦ elim (Result-ends (get_publication_record p current version_id now w.store)) [
            | inl (e, i) ↦
                rw (h, t, i) (inl (e, (refl, refl), inr (inr (current, refl, inr (inl i)))))
            | inr (publication, i) ↦ elim (Result-ends (iso_of p now)) [
              | inl (e, j) ↦ rw (h, t, i, j) (inl (e, (refl, refl), inr (inl refl)))
              | inr (timestamp, j) ↦
                  elim (Result-ends
                    (validate_version env.stringify (of_version publication w.minted timestamp))) [
                      | inl (e, k) ↦
                          rw (h, t, i, j, k)
                            (inl (
                              e,
                              (refl, refl),
                              inr (inr (current, refl, inr (inr (publication, timestamp, i, k)))),
                            ))
                      | inr (_, k) ↦
                          rw (h, t, i, j, k)
                            (inr (
                              current,
                              publication,
                              timestamp,
                              refl,
                              beq→eq current.draft.id expected t,
                              i,
                              refl,
                              redraft_effect p env current _ timestamp (suc w.minted) w
                                  (found_is_stored identifier w.store current keyed h),
                            ))
                    ]
            ]
          ]
        ]
      ]

  -- A deletion finds no template, or removes the one that it has read, with its versions.
  abbrev pub DeleteEnds : String → World → Outcome String → Type 0
  DeleteEnds identifier w out =
      ((e : Error) × Refused w out e × (get_record identifier w.store ≡ err e))
      ⊎ ((current : TemplateRecord) × (get_record identifier w.store ≡ ok current)
          × (out.0 ≡ ok current.id)
          × (get current.id out.1.store.templates ≡ none)
          × (get current.id out.1.store.template_versions ≡ none)
          × ((other : String)
              → current.id ≢ other
              → (get other out.1.store.templates ≡ get other w.store.templates)
                × (get other out.1.store.template_versions ≡ get other w.store.template_versions)))

  pub delete_ends :
      (identifier : String) (w : World)
      → IsKeyed (λ r. r.id) w.store.templates
      → DeleteEnds identifier w (Service.delete p env identifier w)
  unfolding Service.delete delete_found delete_template delete_current deleted_template or_conflict
  delete_ends identifier w keyed = elim (Result-ends (get_record identifier w.store)) [
    | inl (e, h) ↦ rw h (inl (e, (refl, refl), refl))
    | inr (current, h) ↦
        rw (h, found_is_stored identifier w.store current keyed h, beq_refl current.revision)
          (inr (
            current,
            refl,
            refl,
            get-remove_same current.id current.id w.store.templates refl,
            get-remove_same current.id current.id w.store.template_versions refl,
            λ other differ. (
              get-remove_ne current.id other w.store.templates differ,
              get-remove_ne current.id other w.store.template_versions differ,
            ),
          ))
  ]
