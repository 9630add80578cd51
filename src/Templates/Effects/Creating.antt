-- ===== src/Templates/Effects/Creating.antt =====
-- How a creation ends.
use hayasend.Base.{
  false, ℕ, suc, ◌≡◌, refl, ◌⊎◌, inl, inr, String, true, false, Option, none, some, ok, err, Error,
  List, [], or_false, Bool-cases, ◌||◌, string_eq, nat_eq, option_eq, alias_in_use, true-ne-false,
  is_some,
}
use hayasend.Base.Assoc.{get, has, get-put_same, get-put_ne}
use hayasend.Platform.{Platform, iso_of}
use hayasend.Catalog.Records.{TemplateRecord, TemplateVersion, TemplateVariable}
use hayasend.Catalog.Templates.{alias_owner, create_template}
use hayasend.Templates.Service
use hayasend.Templates.Validation.{validate_version, variable_records}
use hayasend.Templates.Service.{
  Environment, World, Outcome, get_record, or_conflict, CreateTemplateInput, create_planned,
  stored_template, new_record, created_version, new_version, TemplateHistoryOptions,
}
use hayasend.Templates.Effects.{Result-ends, Refused, Stores}

module _ (p : Platform) (env : Environment) where
  -- A new version with the fields of the input.
  abbrev pub of_input : CreateTemplateInput → ℕ → String → List TemplateVariable → TemplateVersion
  of_input input minted timestamp variables = record {
    id = env.create_id "tmplv" minted;
    name = input.name;
    html = input.html;
    text = input.text;
    alias = input.alias;
    sender = input.sender;
    subject = input.subject;
    reply_to = input.reply_to;
    variables = variables;
    created_at = timestamp;
    source_version_id = none;
  }

  -- What stops a creation.
  abbrev pub CreateFails : CreateTemplateInput → ℕ → World → Error → Type 0
  CreateFails input now w e =
      (iso_of p now ≡ err e)
      ⊎ ((timestamp : String) × ((variable_records (env.create_id "tmplvar") (suc w.minted)
                input.variables timestamp []
              ≡ err e)
            ⊎ ((variables : List TemplateVariable) × (validate_version env.stringify
                    (of_input input w.minted timestamp variables)
                  ≡ err e))))
      ⊎ ((minted : ℕ) × (e ≡ alias_in_use)
          × ((has (env.create_id "tmpl" minted) w.store.templates
                || is_some (alias_owner input.alias w.store.template_aliases))
              ≡ true))

  -- A creation is stopped, or stores a template with the fields of the input, at the first revision
  -- and not published.
  abbrev pub CreateEnds : CreateTemplateInput → ℕ → World → Outcome String → Type 0
  CreateEnds input now w out =
      ((e : Error) × Refused w out e × CreateFails input now w e)
      ⊎ ((id timestamp : String) × (variables : List TemplateVariable) × (iso_of p now
            ≡ ok timestamp)
          × ((count : ℕ) × (variable_records (env.create_id "tmplvar") (suc w.minted)
                  input.variables timestamp []
                ≡ ok (variables, count)))
          × (validate_version env.stringify (of_input input w.minted timestamp variables) ≡ ok tt)
          × (get id w.store.templates ≡ none)
          × Stores w out (record {
            id = id;
            created_at = timestamp;
            updated_at = timestamp;
            revision = 1;
            draft = of_input input w.minted timestamp variables;
            published = none;
            published_at = none;
          }))

  absent : (o : Option TemplateRecord) → is_some o ≡ false → o ≡ none
  absent none h = refl
  absent (some c) h = absurd (true-ne-false h)

  pub create_ends :
      (input : CreateTemplateInput) (now : ℕ) (w : World)
      → CreateEnds input now w (Service.create p env input now w)
  unfolding Service.create created_version new_version create_planned stored_template
      create_template new_record
  create_ends input now w = elim (Result-ends (iso_of p now)) [
    | inl (e, h) ↦ rw h (inl (e, (refl, refl), inl refl))
    | inr (timestamp, h) ↦
        elim (Result-ends (
          variable_records (env.create_id "tmplvar") (suc w.minted) input.variables timestamp [])) [
            | inl (e, i) ↦ rw (h, i) (inl (e, (refl, refl), inr (inl (timestamp, inl i))))
            | inr (made, i) ↦
                elim (Result-ends
                  (validate_version env.stringify (of_input input w.minted timestamp made.0))) [
                    | inl (e, j) ↦
                        rw (h, i, j) (inl (e, (refl, refl), inr (inl (timestamp, inr (made.0, j)))))
                    | inr (_, j) ↦
                        elim (Bool-cases (
                          has (env.create_id "tmpl" made.1) w.store.templates
                          || is_some (alias_owner input.alias w.store.template_aliases))) [
                            | inl t ↦
                                rw (h, i, j, t)
                                  (inl (alias_in_use, (refl, refl), inr (inr (made.1, refl, t))))
                            | inr f ↦
                                rw (h, i, j, f)
                                  (inr (
                                    env.create_id "tmpl" made.1,
                                    timestamp,
                                    made.0,
                                    refl,
                                    (made.1, i),
                                    j,
                                    absent _ ((or_false _ _ f).0),
                                    (
                                      refl,
                                      get-put_same _ _ _ w.store.templates refl,
                                      λ other differ. get-put_ne _ other _ w.store.templates differ,
                                    ),
                                  ))
                          ]
                  ]
          ]
  ]
