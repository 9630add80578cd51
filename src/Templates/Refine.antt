-- ===== src/Templates/Refine.antt =====
-- services/template-service.ts: each operation of the service is a step of the store, or changes
-- nothing.
use hayasend.Base.{
  ℕ, suc, ◌≡◌, refl, sym, ap, ◌∙◌, ◌⊎◌, inl, inr, String, Bool, true, false, Option, some, Result,
  ok, err, >>=-eq-ok, ok_inj, some_inj, subst, Bool-cases, ◌==◌, string_eq, option_eq, not,
  refuse_if-eq-ok, precondition_failed,
}
use hayasend.Base.Assoc.{get}
use hayasend.Base.Assoc.Keyed.{IsKeyed}
use hayasend.Platform.{Platform, iso_of}
use hayasend.Catalog.Records.{TemplateRecord, TemplateVersion}
use hayasend.Catalog.State.{TemplateStore}
use hayasend.Catalog.Templates.{published_alias, draft_alias}
use hayasend.Catalog.Templates.Laws.{TemplateStep, replace}
use hayasend.Templates.Effects.Replacing.{UpdateEnds, update_ends}
use hayasend.Templates.Effects.Restoring.{RestoreEnds, DeleteEnds, restore_ends, delete_ends}
use hayasend.Templates.Effects.Creating.{CreateEnds, create_ends}
use hayasend.Templates.Effects.Publishing.{PublishEnds, publish_ends}
use hayasend.Templates.Effects.{found_is_stored}
use hayasend.Templates.Service
use hayasend.Templates.Validation.{validate_version}
use hayasend.Templates.Publication
use hayasend.Templates.Publication.{
  TemplatePublicationContext, publish_found, publish_current, published_record, published_id,
  draft_changed, publication_times,
}
use hayasend.Templates.Service.{
  Environment, World, Outcome, get_record, or_conflict, replace_planned, planned_update,
  planned_restore, redrafted, UpdateTemplateInput, CreateTemplateInput, update, restore_version,
  updated_variables, updated_version, restored_draft, get_publication_record, create_planned,
  stored_template, new_record, created_version, delete_found, TemplateHistoryOptions,
}

module _ (p : Platform) (env : Environment) where
  -- Nothing, or one step of the store.
  abbrev Refines : World → World → Type 0
  Refines w w' = (w'.store ≡ w.store) ⊎ TemplateStep p w.store w'.store

  or_conflict-store :
      (a : String) (minted : ℕ) (out : Result Bool × TemplateStore)
      → (or_conflict p a minted out).1.store ≡ out.1
  unfolding or_conflict
  or_conflict-store a minted (err e, s) = refl
  or_conflict-store a minted (ok true, s) = refl
  or_conflict-store a minted (ok false, s) = refl

  -- A template that is stored as it was read, replaced by one with another draft.
  redrafted_step :
      (current : TemplateRecord) (draft : TemplateVersion) (timestamp : String) (minted : ℕ)
      (w : World)
      → get current.id w.store.templates ≡ some current
      → TemplateStep p w.store
          (replace_planned p env
            (ok (current, redrafted p env current draft timestamp, minted))
            w).1.store
  unfolding replace_planned redrafted
  redrafted_step current draft timestamp minted w at =
      subst (TemplateStep p w.store) (sym (or_conflict-store current.id minted _)) (
        replace (redrafted p env current draft timestamp) current.draft.alias current.revision
          w.store
          λ c found same.
            let is : current ≡ c = some_inj (sym at ∙ found) in
            (ap draft_alias (sym is), ap published_alias (sym is)))

  -- What is planned is the template as it was read with another draft.
  abbrev IsRedraft : World → String → TemplateRecord × TemplateRecord × ℕ → Type 0
  IsRedraft w identifier (current, updated, minted) =
      (get_record identifier w.store ≡ ok current)
      × ((draft : TemplateVersion) × (timestamp : String) × (redrafted p env current draft timestamp
            ≡ updated))

  planned_update_lem :
      (identifier : String) (input : UpdateTemplateInput) (now : ℕ) (w : World)
      (plan : TemplateRecord × TemplateRecord × ℕ)
      → planned_update p env identifier input now w ≡ ok plan
      → IsRedraft w identifier plan
  unfolding planned_update
  planned_update_lem identifier input now w plan h =
      let (current, read, h1) = >>=-eq-ok (get_record identifier w.store) _ h in
      let (timestamp, _, h2) = >>=-eq-ok (iso_of p now) _ h1 in
      let (made, _, h3) =
        >>=-eq-ok
          (updated_variables p env input.variables current.draft.variables timestamp (suc w.minted))
          _ h2 in
      let draft : TemplateVersion =
        updated_version p env input current.draft (env.create_id "tmplv" w.minted) timestamp
          made.0 in
      let (_, _, h4) = >>=-eq-ok (validate_version env.stringify draft) _ h3 in
      subst (IsRedraft w identifier) (ok_inj h4) (read, (draft, timestamp, refl))

  planned_restore_lem :
      (identifier version_id expected : String) (now : ℕ) (w : World)
      (plan : TemplateRecord × TemplateRecord × ℕ)
      → planned_restore p env identifier version_id expected now w ≡ ok plan
      → IsRedraft w identifier plan
  unfolding planned_restore
  planned_restore_lem identifier version_id expected now w plan h =
      let (current, read, h1) = >>=-eq-ok (get_record identifier w.store) _ h in
      let (_, h2) = refuse_if-eq-ok (not (current.draft.id == expected)) precondition_failed _ h1 in
      let (publication, _, h3) =
        >>=-eq-ok (get_publication_record p current version_id now w.store) _ h2 in
      let (timestamp, _, h4) = >>=-eq-ok (iso_of p now) _ h3 in
      let draft : TemplateVersion =
        restored_draft p env publication (env.create_id "tmplv" w.minted) timestamp in
      let (_, _, h5) = >>=-eq-ok (validate_version env.stringify draft) _ h4 in
      subst (IsRedraft w identifier) (ok_inj h5) (read, (draft, timestamp, refl))

  replace_planned-Refines :
      (identifier : String) (w : World) (plan : Result (TemplateRecord × TemplateRecord × ℕ))
      → IsKeyed (λ r. r.id) w.store.templates
      → ((x : TemplateRecord × TemplateRecord × ℕ) → plan ≡ ok x → IsRedraft w identifier x)
      → Refines w (replace_planned p env plan w).1
  unfolding replace_planned
  replace_planned-Refines identifier w (err e) keyed planned = inl refl
  replace_planned-Refines identifier w (ok (current, updated, minted)) keyed planned =
      let (read, (draft, timestamp, is)) = planned (current, updated, minted) refl in
      inr (
        subst
          (λ u. TemplateStep p w.store (replace_planned p env (ok (current, u, minted)) w).1.store)
          is
          (redrafted_step current draft timestamp minted w
            (found_is_stored identifier w.store current keyed read)))

  update-Refines :
      (identifier : String) (input : UpdateTemplateInput) (now : ℕ) (w : World)
      → IsKeyed (λ r. r.id) w.store.templates
      → Refines w (update p env identifier input now w).1
  unfolding update
  update-Refines identifier input now w keyed =
      replace_planned-Refines identifier w _ keyed (planned_update_lem identifier input now w)

  restore_version-Refines :
      (identifier version_id expected : String) (now : ℕ) (w : World)
      → IsKeyed (λ r. r.id) w.store.templates
      → Refines w (restore_version p env identifier version_id expected now w).1
  unfolding restore_version
  restore_version-Refines identifier version_id expected now w keyed =
      replace_planned-Refines identifier w _ keyed
        (planned_restore_lem identifier version_id expected now w)

  create-Refines :
      (input : CreateTemplateInput) (now : ℕ) (w : World)
      → Refines w (Service.create p env input now w).1
  unfolding Service.create create_planned stored_template new_record
  create-Refines input now w = planned (created_version p env input now w.minted)
    where
      planned :
          (plan : Result (TemplateVersion × String × ℕ)) → Refines w (create_planned p env plan w).1
      planned (err e) = inl refl
      planned (ok (version, timestamp, minted)) = inr (TemplateStep.create _ w.store refl)

  delete-Refines :
      (identifier : String) (w : World) → Refines w (Service.delete p env identifier w).1
  unfolding Service.delete delete_found
  delete-Refines identifier w = found (get_record identifier w.store)
    where
      found : (r : Result TemplateRecord) → Refines w (delete_found p env r w).1
      found (err e) = inl refl
      found (ok current) = inr (
          subst (TemplateStep p w.store) (sym (or_conflict-store current.id w.minted _))
            (TemplateStep.delete current.id current.revision w.store))

  publish-Refines :
      (history : TemplateHistoryOptions) (identifier : String) (now : ℕ) (expected : Option String)
      (context : TemplatePublicationContext) (w : World)
      → IsKeyed (λ r. r.id) w.store.templates
      → Refines w (Publication.publish p history identifier now expected context w).1
  unfolding Publication.publish publish_found publish_current published_record
  publish-Refines history identifier now expected context w keyed =
      found (get_record identifier w.store) refl
    where
      written :
          (current : TemplateRecord) (times : Result (String × String))
          → get current.id w.store.templates ≡ some current
          → Refines w (publish_current p history current context now w times).1
      written current (err e) at = inl refl
      written current (ok (timestamp, expires_at)) at = inr (
          subst (TemplateStep p w.store) (sym (or_conflict-store current.id w.minted _)) (
            TemplateStep.publish (published_record current timestamp) _ (published_alias current)
              current.revision history.limit w.store
              λ c here same.
                let is : current ≡ c = some_inj (sym at ∙ here) in
                (ap published_alias (sym is), ap draft_alias (sym is))))

      found :
          (r : Result TemplateRecord)
          → get_record identifier w.store ≡ r
          → Refines w (publish_found p history r now expected context w).1
      found (err e) h = inl refl
      found (ok current) h = elim (Bool-cases (draft_changed expected current.draft.id)) [
        | inl t ↦ rw t (inl refl)
        | inr f ↦ elim (Bool-cases (published_id current.published == some current.draft.id)) [
          | inl t ↦ rw (f, t) (inl refl)
          | inr g ↦
              rw (f, g)
                (written current (publication_times p history now)
                  (found_is_stored identifier w.store current keyed h))
        ]
      ]

-- On a store that keeps each template under its own identifier, each operation that writes leaves
-- the store as it was or takes it by one step of the store's relation, and ends so. Creation: it is
-- stopped by the time, the variables, the checks of the version, or an identifier or an alias in use,
-- with the store as it was; or it stores, under a new identifier, a template with the fields of the
-- input, at revision 1 and not published. Update and restoration: stopped by what they read or
-- check, or by an alias of another template, with the store as it was; or the template that was read
-- has the new draft, with the fields of the input or the content of the version, and the next
-- revision. Publication: stopped, or nothing to do, with the store as it was; or the template that
-- was read is published as its draft, at the next revision, and the store has taken this publication
-- at the revision that was read. Deletion: no template is found, or the
-- template that was read goes, with its versions. The other templates stay as they were.
pub service_refines_store :
    (p : Platform) (env : Environment) (history : TemplateHistoryOptions)
    (context : TemplatePublicationContext) (w : World)
    → IsKeyed (λ r. r.id) w.store.templates
    → ((input : CreateTemplateInput) (now : ℕ)
        → let out = Service.create p env input now w in
          ((out.1.store ≡ w.store) ⊎ TemplateStep p w.store out.1.store)
          × CreateEnds p env input now w out)
      × ((identifier : String) (input : UpdateTemplateInput) (now : ℕ)
          → let out = Service.update p env identifier input now w in
            ((out.1.store ≡ w.store) ⊎ TemplateStep p w.store out.1.store)
            × UpdateEnds p env identifier input now w out)
      × ((identifier version_id expected : String) (now : ℕ)
          → let out = Service.restore_version p env identifier version_id expected now w in
            ((out.1.store ≡ w.store) ⊎ TemplateStep p w.store out.1.store)
            × RestoreEnds p env identifier version_id expected now w out)
      × ((identifier : String) (now : ℕ) (expected : Option String)
          → let out = Publication.publish p history identifier now expected context w in
            ((out.1.store ≡ w.store) ⊎ TemplateStep p w.store out.1.store)
            × PublishEnds p history identifier now expected context w out)
      × ((identifier : String)
          → let out = Service.delete p env identifier w in
            ((out.1.store ≡ w.store) ⊎ TemplateStep p w.store out.1.store)
            × DeleteEnds p env identifier w out)
service_refines_store p env history context w keyed = (
  λ input now. (create-Refines p env input now w, create_ends p env input now w),
  λ identifier input now. (
    update-Refines p env identifier input now w keyed,
    update_ends p env identifier input now w keyed,
  ),
  λ identifier version_id expected now. (
    restore_version-Refines p env identifier version_id expected now w keyed,
    restore_ends p env identifier version_id expected now w keyed,
  ),
  λ identifier now expected. (
    publish-Refines p env history identifier now expected context w keyed,
    publish_ends p history identifier now expected context w keyed,
  ),
  λ identifier. (delete-Refines p env identifier w, delete_ends p env identifier w keyed),
)
