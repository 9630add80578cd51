-- ===== src/Templates/Publication.antt =====
-- services/template-service.ts: `publish`, and `resolveForSend`, which renders what is published.
use hayasend.Base.{
  ℕ, ◌+◌, ◌*◌, String, Bool, false, not, List, Option, none, some, Result, ok, err, ◌>>=◌, require,
  if◌then◌else◌, ◌==◌, string_eq, option_eq, validation_error, precondition_failed,
}
use hayasend.Model.Formats.{codes}
use hayasend.Platform.{Platform, iso_of}
use hayasend.Text.{Text}
use hayasend.Store.Pages.{truthy}
use hayasend.Catalog.Records.{
  TemplateVersion, TemplateRecord, TemplatePublicationRecord, TemplatePublicationActor,
  TemplatePublicationSource,
}
use hayasend.Catalog.State.{TemplateStore}
use hayasend.Catalog.Templates.{publish_template, published_alias}
use hayasend.Templates.Validation.{is_blank}
use hayasend.Templates.Render.{Rendered, Value, render_template_version}
use hayasend.Templates.Service.{
  TemplateHistoryOptions, Environment, World, Outcome, get_record, get_published_record,
  or_conflict,
}

pub record TemplatePublicationContext : Type 0 where
  pub actor : TemplatePublicationActor
  pub source : TemplatePublicationSource

-- published?.id
unfoldable pub published_id : Option TemplateVersion → Option String
published_id none = none
published_id (some v) = some v.id

-- `expected !== undefined && draft.id !== expected`
unfoldable pub draft_changed : Option String → String → Bool
draft_changed none draft_id = false
draft_changed (some expected) draft_id = not (draft_id == expected)

unfoldable pub published_record : TemplateRecord → String → TemplateRecord
published_record current timestamp = record current {
  published = some current.draft;
  published_at = some timestamp;
  updated_at = timestamp;
  revision = current.revision + 1;
}

unfoldable pub publication_record :
    TemplateRecord → TemplatePublicationContext → String → String → TemplatePublicationRecord
publication_record current context timestamp expires_at = record {
  id = current.draft.id;
  template_id = current.id;
  version = current.draft;
  published_at = timestamp;
  expires_at = expires_at;
  actor = context.actor;
  source = context.source;
  source_version_id = truthy current.draft.source_version_id;
}

module _ (p : Platform) (history : TemplateHistoryOptions) where
  -- The template and its publication, stored at the revision that was read.
  unfoldable pub publish_current :
      TemplateRecord
      → TemplatePublicationContext
      → ℕ
      → World
      → Result (String × String)
      → Outcome String
  publish_current current context now w (err e) = (err e, w)
  publish_current current context now w (ok (timestamp, expires_at)) =
      or_conflict p current.id w.minted (
        publish_template p (published_record current timestamp)
          (publication_record current context timestamp expires_at) (published_alias current)
          current.revision history.limit w.store)

  -- The time of the publication and the end of its retention.
  unfoldable pub publication_times : ℕ → Result (String × String)
  publication_times now = do
    timestamp ← iso_of p now
    expires_at ← iso_of p (now + history.retention_days * 86400000)
    ok (timestamp, expires_at)

  unfoldable pub publish_found :
      Result TemplateRecord
      → ℕ
      → Option String
      → TemplatePublicationContext
      → World
      → Outcome String
  publish_found (err e) now expected context w = (err e, w)
  publish_found (ok current) now expected context w =
      if draft_changed expected current.draft.id
      then (err precondition_failed, w)
      else if published_id current.published == some current.draft.id
      then (ok current.id, w)
      else publish_current current context now w (publication_times now)

  unfoldable pub publish :
      String → ℕ → Option String → TemplatePublicationContext → World → Outcome String
  publish identifier now expected context w =
      publish_found (get_record identifier w.store) now expected context w

-- The fields of a SendEmailInput that concern its content.
pub record SendContent : Type 0 where
  pub sender : Option String
  pub subject : Option String
  pub reply_to : Option (List String)
  -- template.id and template.variables
  pub template : Option (String × List (String × Value))

pub record ResolvedContent : Type 0 where
  pub sender : Text
  pub subject : Text
  -- what is rendered; without a template the content stays that of the input
  pub rendered : Option Rendered

-- A text that is there and not empty.
unfoldable pub required_text : Option Text → Result Text
required_text none = err validation_error
required_text (some t) = if is_blank t then err validation_error else ok t

unfoldable pub optional_codes : Option String → Option Text
optional_codes none = none
optional_codes (some t) = some (codes t)

module _ (env : Environment) where
  unfoldable pub resolve_rendered : Rendered → Result ResolvedContent
  resolve_rendered r = required_text r.sender >>= λ sender. required_text r.subject >>= λ subject.
      ok (record { sender = sender; subject = subject; rendered = some r })

  unfoldable pub resolve_template :
      SendContent → List (String × Value) → TemplateRecord → Result ResolvedContent
  resolve_template input variables r = require r.published validation_error >>= λ version.
      render_template_version env.plain_text version (record {
        sender = truthy input.sender;
        subject = truthy input.subject;
        reply_to = input.reply_to;
        variables = variables;
      })
      >>= resolve_rendered

  unfoldable pub resolve_with :
      SendContent → Option (String × List (String × Value)) → TemplateStore → Result ResolvedContent
  resolve_with input none s = required_text (optional_codes input.sender) >>= λ sender.
      required_text (optional_codes input.subject) >>= λ subject.
      ok (record { sender = sender; subject = subject; rendered = none })
  resolve_with input (some (id, variables)) s =
      get_published_record id s >>= λ r. resolve_template input variables r

  unfoldable pub resolve_for_send : SendContent → TemplateStore → Result ResolvedContent
  resolve_for_send input s = resolve_with input input.template s
