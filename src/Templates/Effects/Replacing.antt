-- ===== src/Templates/Effects/Replacing.antt =====
-- How an update ends.
use hayasend.Base.{
  ℕ, suc, ◌+◌, ◌≡◌, ◌≢◌, refl, sym, ap, ◌∙◌, ◌⊎◌, inl, inr, String, true, Option, none, some, ok,
  err, Error, List, Bool-cases, ◌==◌, string_eq, nat_eq, not, beq_refl, alias_in_use, true-ne-false,
}
use hayasend.Base.Assoc.{get, get-put_same, get-put_ne}
use hayasend.Base.Assoc.Keyed.{IsKeyed}
use hayasend.Platform.{Platform, iso_of}
use hayasend.Catalog.Records.{TemplateRecord, TemplateVersion, TemplateVariable}
use hayasend.Catalog.Templates.{
  alias_owner, owned_by_other, at_revision, replace_template, replaced_template,
}
use hayasend.Templates.Validation.{validate_version}
use hayasend.Templates.Service.{
  Environment, World, Outcome, get_record, or_conflict, replace_planned, planned_update, redrafted,
  UpdateTemplateInput, update, updated_variables, updated_version, updated_optional, or_previous,
}
use hayasend.Templates.Effects.{Result-ends, found_is_stored, Refused, Stores}

pub owner_of_other :
    (o : Option String) (id : String)
    → owned_by_other o id ≡ true
    → (owner : String) × (o ≡ some owner) × (owner ≢ id)
unfolding owned_by_other
owner_of_other none id h = absurd (true-ne-false (sym h))
owner_of_other (some owner) id h =
    (owner, refl, λ same. true-ne-false (sym h ∙ ap not (ap (λ x. x == id) same ∙ beq_refl id)))

-- The alias of a draft is another template's.
abbrev pub IsTaken : Option String → String → World → Type 0
IsTaken alias id w =
    (owner : String) × (alias_owner alias w.store.template_aliases ≡ some owner) × (owner ≢ id)

-- A template that was read gets a new draft and the next revision, unless the draft's alias is
-- another's; its publication stays.
abbrev pub Redrafts : World → Outcome String → TemplateRecord → TemplateVersion → String → Type 0
Redrafts w out current draft timestamp =
    (Refused w out alias_in_use × IsTaken draft.alias current.id w)
    ⊎ (Stores w out (record current {
      draft = draft;
      updated_at = timestamp;
      revision = current.revision + 1;
    })
        × (out.1.store.template_versions ≡ w.store.template_versions))

module _ (p : Platform) (env : Environment) where
  pub redraft_effect :
      (current : TemplateRecord) (draft : TemplateVersion) (timestamp : String) (minted : ℕ)
      (w : World)
      → get current.id w.store.templates ≡ some current
      → Redrafts w
          (replace_planned p env (ok (current, redrafted p env current draft timestamp, minted)) w)
          current
          draft
          timestamp
  unfolding replace_planned redrafted replace_template replaced_template or_conflict at_revision
  redraft_effect current draft timestamp minted w at =
      elim (Bool-cases
        (owned_by_other (alias_owner draft.alias w.store.template_aliases) current.id)) [
          | inl t ↦
              rw (at, beq_refl current.revision, t)
                (inl ((refl, refl), owner_of_other _ current.id t))
          | inr f ↦
              rw (at, beq_refl current.revision, f)
                (inr (
                  (
                    refl,
                    get-put_same current.id current.id _ w.store.templates refl,
                    λ other differ. get-put_ne current.id other _ w.store.templates differ,
                  ),
                  refl,
                ))
        ]

  -- What stops an update before it writes.
  abbrev pub UpdateFails : String → UpdateTemplateInput → ℕ → World → Error → Type 0
  UpdateFails identifier input now w e =
      (get_record identifier w.store ≡ err e)
      ⊎ (iso_of p now ≡ err e)
      ⊎ ((current : TemplateRecord) × (timestamp : String) × (get_record identifier w.store
            ≡ ok current)
          × ((updated_variables p env input.variables current.draft.variables timestamp
                  (suc w.minted)
                ≡ err e)
              ⊎ ((made : List TemplateVariable) × (validate_version env.stringify (
                      updated_version p env input current.draft (env.create_id "tmplv" w.minted)
                        timestamp made)
                    ≡ err e))))

  -- An update is stopped, or gives the template that it has read the fields of the input.
  abbrev pub UpdateEnds : String → UpdateTemplateInput → ℕ → World → Outcome String → Type 0
  UpdateEnds identifier input now w out =
      ((e : Error) × Refused w out e × UpdateFails identifier input now w e)
      ⊎ ((current : TemplateRecord) × (timestamp : String) × (draft : TemplateVersion) × (get_record
              identifier w.store
            ≡ ok current)
          × (iso_of p now ≡ ok timestamp)
          × (draft.name ≡ or_previous input.name current.draft.name)
          × (draft.html ≡ or_previous input.html current.draft.html)
          × (draft.text ≡ updated_optional input.text current.draft.text)
          × (draft.alias ≡ updated_optional input.alias current.draft.alias)
          × (draft.sender ≡ updated_optional input.sender current.draft.sender)
          × (draft.subject ≡ updated_optional input.subject current.draft.subject)
          × (draft.reply_to ≡ updated_optional input.reply_to current.draft.reply_to)
          × ((count : ℕ) × (updated_variables p env input.variables current.draft.variables
                  timestamp (suc w.minted)
                ≡ ok (draft.variables, count)))
          × (validate_version env.stringify draft ≡ ok tt)
          × Redrafts w out current draft timestamp)

  pub update_ends :
      (identifier : String) (input : UpdateTemplateInput) (now : ℕ) (w : World)
      → IsKeyed (λ r. r.id) w.store.templates
      → UpdateEnds identifier input now w (update p env identifier input now w)
  unfolding update planned_update replace_planned or_previous updated_version
  update_ends identifier input now w keyed = elim (Result-ends (get_record identifier w.store)) [
    | inl (e, h) ↦ rw h (inl (e, (refl, refl), inl refl))
    | inr (current, h) ↦ elim (Result-ends (iso_of p now)) [
      | inl (e, i) ↦ rw (h, i) (inl (e, (refl, refl), inr (inl refl)))
      | inr (timestamp, i) ↦
          elim (Result-ends (
            updated_variables p env input.variables current.draft.variables timestamp
              (suc w.minted))) [
                | inl (e, j) ↦
                    rw (h, i, j)
                      (inl (e, (refl, refl), inr (inr (current, timestamp, refl, inl j))))
                | inr (made, j) ↦
                    elim (Result-ends (
                      validate_version env.stringify (
                        updated_version p env input current.draft (env.create_id "tmplv" w.minted)
                          timestamp made.0))) [
                            | inl (e, k) ↦
                                rw (h, i, j, k)
                                  (inl (
                                    e,
                                    (refl, refl),
                                    inr (inr (current, timestamp, refl, inr (made.0, k))),
                                  ))
                            | inr (_, k) ↦
                                rw (h, i, j, k)
                                  (inr (
                                    current,
                                    timestamp,
                                    updated_version p env input current.draft
                                        (env.create_id "tmplv" w.minted) timestamp made.0,
                                    refl,
                                    refl,
                                    refl,
                                    refl,
                                    refl,
                                    refl,
                                    refl,
                                    refl,
                                    refl,
                                    (made.1, j),
                                    k,
                                    redraft_effect current _ timestamp made.1 w
                                        (found_is_stored identifier w.store current keyed h),
                                  ))
                          ]
              ]
    ]
  ]
