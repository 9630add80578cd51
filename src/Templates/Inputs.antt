-- ===== src/Templates/Inputs.antt =====
-- services/template-service.ts: what the service is given and keeps, and how it finds what it works on.
use hayasend.Base.{
  ℕ, String, Bool, true, false, ◌&&◌, ◌||◌, List, Option, none, some, Result, ok, err, ◌>>◌,
  refuse_if, require, ltb, if◌then◌else◌, ◌==◌, string_eq, option_eq, not_found, conflict,
  validation_error,
}
use hayasend.Platform.{Platform}
use hayasend.Text.{Text}
use hayasend.Json.{Json}
use hayasend.Catalog.Records.{TemplateRecord, TemplatePublicationRecord}
use hayasend.Catalog.State.{TemplateStore}
use hayasend.Catalog.Templates.{get_template, get_published_template, get_template_version}
use hayasend.Templates.Validation.{TemplateVariableInput}

pub record TemplateHistoryOptions : Type 0 where
  pub retention_days : ℕ
  pub limit : ℕ

unfoldable pub or_default : Option ℕ → ℕ → ℕ
or_default none fallback = fallback
or_default (some n) fallback = n

-- The constructor's checks, with 90 days and 50 versions where nothing is given.
unfoldable pub history_options : Option ℕ → Option ℕ → Result TemplateHistoryOptions
history_options retention_days limit =
    let days = or_default retention_days 90 in
    let count = or_default limit 50 in
    refuse_if (ltb days 1 || ltb 365 days) validation_error
    >> (refuse_if (ltb count 1 || ltb 50 count) validation_error
        >> ok (record { retention_days = days; limit = count }))

pub record Environment : Type 0 where
  -- createId(prefix), the n-th that is made
  pub create_id : String → ℕ → String
  pub stringify : Json → String
  -- plainTextFromHtml(html)
  pub plain_text : Text → Text

-- The store, and how many identifiers were made.
pub record World : Type 0 where
  pub store : TemplateStore
  pub minted : ℕ

abbrev pub Outcome {ℓ} : Type ℓ → Type ℓ
Outcome A = Result A × World

-- A field that is left out, null, or given.
pub data Change {ℓ} (A : Type ℓ) : Type ℓ where
  keep clear : Change A
  change : A → Change A

pub record CreateTemplateInput : Type 0 where
  pub name : String
  pub html : String
  pub text : Option String
  pub alias : Option String
  pub sender : Option String
  pub subject : Option String
  pub reply_to : Option (List String)
  pub variables : List TemplateVariableInput

pub record UpdateTemplateInput : Type 0 where
  pub name : Option String
  pub html : Option String
  pub text : Change String
  pub alias : Change String
  pub sender : Change String
  pub subject : Change String
  pub reply_to : Change (List String)
  pub variables : Option (List TemplateVariableInput)

-- updatedOptional
unfoldable pub updated_optional {ℓ} : {A : Type ℓ} → Change A → Option A → Option A
updated_optional keep previous = previous
updated_optional clear previous = none
updated_optional (change a) previous = some a

unfoldable pub or_previous : Option String → String → String
or_previous none previous = previous
or_previous (some t) previous = t

-- getRecord
unfoldable pub get_record : String → TemplateStore → Result TemplateRecord
get_record identifier s = require (get_template identifier s) not_found

unfoldable pub get_published_record : String → TemplateStore → Result TemplateRecord
get_published_record identifier s = require (get_published_template identifier s) not_found

module _ (p : Platform) where
  -- Whether the publication is the template's, and has not expired.
  unfoldable pub publication_fits : String → String → ℕ → TemplatePublicationRecord → Bool
  publication_fits template_id version_id now v =
      v.template_id == template_id
      && v.id == version_id
      && v.version.id == version_id
      && elim (p.date_parse v.expires_at) [ none ↦ false | some t ↦ ltb now t ]

  unfoldable pub checked_publication :
      String → String → ℕ → Option TemplatePublicationRecord → Result TemplatePublicationRecord
  checked_publication template_id version_id now none = err not_found
  checked_publication template_id version_id now (some v) =
      if publication_fits template_id version_id now v then ok v else err not_found

  unfoldable pub get_publication_record :
      TemplateRecord → String → ℕ → TemplateStore → Result TemplatePublicationRecord
  get_publication_record template version_id now s =
      checked_publication template.id version_id now (get_template_version template.id version_id s)

  -- What the store has done, or a conflict where it has not.
  unfoldable pub or_conflict {ℓ} : {A : Type ℓ} → A → ℕ → Result Bool × TemplateStore → Outcome A
  or_conflict a minted (err e, s) = (err e, record { store = s; minted = minted })
  or_conflict a minted (ok true, s) = (ok a, record { store = s; minted = minted })
  or_conflict a minted (ok false, s) = (err conflict, record { store = s; minted = minted })
