-- ===== src/Templates/Service.antt =====
-- services/template-service.ts: the operations of TemplateService over the in-memory store. `now` is
-- the argument of the call, in milliseconds.
use hayasend.Base.{
  ℕ, suc, ◌+◌, ◌/◌, String, not, List, [], map, Option, none, some, Result, ok, err, ◌>>=◌, ◌>>◌,
  refuse_if, ◌==◌, string_eq, option_eq, precondition_failed,
}
use Prim.Native.String
use hayasend.Platform.{Platform, iso_of}
use hayasend.Store.Pages.{Page, truthy}
use hayasend.Catalog.Records.{
  TemplateVersion, TemplateVariable, TemplateRecord, TemplatePublicationRecord,
}
use hayasend.Catalog.State.{TemplateStore}
use hayasend.Catalog.Templates.{create_template, replace_template, delete_template}
use hayasend.Catalog.Templates.Lists.{Direction, list_templates, list_template_versions}
use hayasend.Templates.Validation.{TemplateVariableInput, variable_records, validate_version}
use hayasend.Templates.Render.{RenderTemplateInput, Rendered, render_template_version}
pub use hayasend.Templates.Inputs.{
  TemplateHistoryOptions, Environment, World, Outcome, Change, CreateTemplateInput,
  UpdateTemplateInput,
}
unfoldable pub use hayasend.Templates.Inputs.{
  or_default, history_options, updated_optional, or_previous, get_record, get_published_record,
  publication_fits, checked_publication, get_publication_record, or_conflict,
}

module _ (p : Platform) where
  module _ (env : Environment) where
    unfoldable pub new_version :
        CreateTemplateInput → String → String → List TemplateVariable → TemplateVersion
    new_version input id timestamp variables = record {
      id = id;
      name = input.name;
      html = input.html;
      text = input.text;
      alias = input.alias;
      sender = input.sender;
      subject = input.subject;
      reply_to = input.reply_to;
      variables = variables;
      created_at = timestamp;
      source_version_id = none;
    }

    unfoldable pub new_record : TemplateVersion → String → String → TemplateRecord
    new_record version id timestamp = record {
      id = id;
      created_at = timestamp;
      updated_at = timestamp;
      revision = 1;
      draft = version;
      published = none;
      published_at = none;
    }

    -- The version of the input, whose identifier is made first, and the count of identifiers.
    unfoldable pub created_version :
        CreateTemplateInput → ℕ → ℕ → Result (TemplateVersion × String × ℕ)
    created_version input now minted = do
      timestamp ← iso_of p now
      made ← variable_records (env.create_id "tmplvar") (suc minted) input.variables timestamp []
      let version = new_version input (env.create_id "tmplv" minted) timestamp made.0
      validate_version env.stringify version
      ok (version, timestamp, made.1)

    unfoldable pub stored_template : TemplateRecord → ℕ → World → Outcome String
    stored_template r minted w =
        let (answer, s) = create_template r w.store in
        (answer >> ok r.id, record { store = s; minted = minted })

    unfoldable pub create_planned : Result (TemplateVersion × String × ℕ) → World → Outcome String
    create_planned (err e) w = (err e, w)
    create_planned (ok (version, timestamp, minted)) w =
        stored_template (new_record version (env.create_id "tmpl" minted) timestamp) (suc minted) w

    unfoldable pub create : CreateTemplateInput → ℕ → World → Outcome String
    create input now w = create_planned (created_version input now w.minted) w

    unfoldable pub updated_variables :
        Option (List TemplateVariableInput)
        → List TemplateVariable
        → String
        → ℕ
        → Result (List TemplateVariable × ℕ)
    updated_variables none previous timestamp minted = ok (previous, minted)
    updated_variables (some inputs) previous timestamp minted =
        variable_records (env.create_id "tmplvar") minted inputs timestamp previous

    unfoldable pub updated_version :
        UpdateTemplateInput
        → TemplateVersion
        → String
        → String
        → List TemplateVariable
        → TemplateVersion
    updated_version input previous id timestamp variables = record {
      id = id;
      name = or_previous input.name previous.name;
      html = or_previous input.html previous.html;
      text = updated_optional input.text previous.text;
      alias = updated_optional input.alias previous.alias;
      sender = updated_optional input.sender previous.sender;
      subject = updated_optional input.subject previous.subject;
      reply_to = updated_optional input.reply_to previous.reply_to;
      variables = variables;
      created_at = timestamp;
      source_version_id = none;
    }

    unfoldable pub redrafted : TemplateRecord → TemplateVersion → String → TemplateRecord
    redrafted current draft timestamp = record current {
      draft = draft;
      updated_at = timestamp;
      revision = current.revision + 1;
    }

    -- The template with its new draft, and the count of identifiers.
    unfoldable pub planned_update :
        String → UpdateTemplateInput → ℕ → World → Result (TemplateRecord × TemplateRecord × ℕ)
    planned_update identifier input now w = do
      current ← get_record identifier w.store
      timestamp ← iso_of p now
      made ← updated_variables input.variables current.draft.variables timestamp (suc w.minted)
      let draft =
          updated_version input current.draft (env.create_id "tmplv" w.minted) timestamp made.0
      validate_version env.stringify draft
      ok (current, redrafted current draft timestamp, made.1)

    -- The template as it was read and as it is to be: replaced at the revision that was read.
    unfoldable pub replace_planned :
        Result (TemplateRecord × TemplateRecord × ℕ) → World → Outcome String
    replace_planned (err e) w = (err e, w)
    replace_planned (ok (current, updated, minted)) w =
        or_conflict p current.id minted
          (replace_template updated current.draft.alias current.revision w.store)

    unfoldable pub update : String → UpdateTemplateInput → ℕ → World → Outcome String
    update identifier input now w = replace_planned (planned_update identifier input now w) w

    unfoldable pub restored_draft : TemplatePublicationRecord → String → String → TemplateVersion
    restored_draft publication id timestamp = record publication.version {
      id = id;
      created_at = timestamp;
      source_version_id = some publication.id;
    }

    unfoldable pub planned_restore :
        String → String → String → ℕ → World → Result (TemplateRecord × TemplateRecord × ℕ)
    planned_restore identifier version_id expected now w = do
      current ← get_record identifier w.store
      refuse_if (not (current.draft.id == expected)) precondition_failed
      publication ← get_publication_record p current version_id now w.store
      timestamp ← iso_of p now
      let draft = restored_draft publication (env.create_id "tmplv" w.minted) timestamp
      validate_version env.stringify draft
      ok (current, redrafted current draft timestamp, suc w.minted)

    unfoldable pub restore_version : String → String → String → ℕ → World → Outcome String
    restore_version identifier version_id expected now w =
        replace_planned (planned_restore identifier version_id expected now w) w

    unfoldable pub delete_found : Result TemplateRecord → World → Outcome String
    delete_found (err e) w = (err e, w)
    delete_found (ok current) w =
        let (done, s) = delete_template current.id current.revision w.store in
        or_conflict p current.id w.minted (ok done, s)

    unfoldable pub delete : String → World → Outcome String
    delete identifier w = delete_found (get_record identifier w.store) w

    -- `duplicate` creates a template of the same content, with no alias.
    unfoldable pub variable_input : TemplateVariable → TemplateVariableInput
    variable_input v = record { key = v.key; kind = v.kind; fallback_value = v.fallback_value }

    unfoldable pub duplicate_input : TemplateVersion → CreateTemplateInput
    duplicate_input v = record {
      name = String.◌++◌ v.name " copy";
      html = v.html;
      text = v.text;
      alias = none;
      sender = v.sender;
      subject = v.subject;
      reply_to = v.reply_to;
      variables = map variable_input v.variables;
    }

    unfoldable pub duplicate_found : Result TemplateRecord → ℕ → World → Outcome String
    duplicate_found (err e) now w = (err e, w)
    duplicate_found (ok source) now w = create (duplicate_input source.draft) now w

    unfoldable pub duplicate : String → ℕ → World → Outcome String
    duplicate identifier now w = duplicate_found (get_record identifier w.store) now w

    unfoldable pub render_version :
        String → String → RenderTemplateInput → ℕ → TemplateStore → Result Rendered
    render_version identifier version_id input now s = do
      template ← get_record identifier s
      publication ← get_publication_record p template version_id now s
      render_template_version env.plain_text publication.version input

    unfoldable pub render_draft : String → RenderTemplateInput → TemplateStore → Result Rendered
    render_draft identifier input s =
        get_record identifier s >>= λ r. render_template_version env.plain_text r.draft input

    -- `after ?? before`, found as a template.
    unfoldable pub list_cursor : Option String → TemplateStore → Result (Option String)
    list_cursor none s = ok none
    list_cursor (some c) s = get_record c s >>= λ r. ok (some r.id)

    unfoldable pub either_cursor : Option String → Option String → Option String
    either_cursor none before = before
    either_cursor (some after) before = some after

    unfoldable pub list_direction : Option String → Direction
    list_direction none = Direction.after
    list_direction (some before) = Direction.before

    unfoldable pub list :
        ℕ → Option String → Option String → TemplateStore → Result (Page TemplateRecord)
    list limit after before s = list_cursor (truthy (either_cursor after before)) s >>= λ cursor.
        ok (list_templates p limit cursor (list_direction (truthy before)) s)

    unfoldable pub version_cursor :
        TemplateRecord
        → Option String
        → ℕ
        → TemplateStore
        → Result (Option TemplatePublicationRecord)
    version_cursor template none now s = ok none
    version_cursor template (some after) now s =
        get_publication_record p template after now s >>= λ v. ok (some v)

    unfoldable pub list_versions :
        String → ℕ → Option String → ℕ → TemplateStore → Result (Page TemplatePublicationRecord)
    list_versions identifier limit after now s = get_record identifier s >>= λ template.
        version_cursor template (truthy after) now s >>= λ cursor.
        ok (list_template_versions p template.id limit cursor (now / 1000) s)
