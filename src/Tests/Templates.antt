-- ===== src/Tests/Templates.antt =====
-- A template at small inputs.
use hayasend.Base.{
  ℕ, ◌+◌, ◌≤◌, ◌≡◌, ◌≢◌, ◌⊎◌, refl, String, true, List, [], ◌∷◌, Option, none, some, ok, All,
}
use hayasend.Base.Assoc.{get}
use hayasend.Base.Assoc.Keyed.{IsKeyed}
use hayasend.Model.Formats.{codes}
use hayasend.Text.{
  Text, utf8_byte_length, utf8_width, has_line_break, is_line_break, replace_all, utf16_length,
  skip_white, is_white,
}
use hayasend.Catalog.Records.{
  TemplateVersion, TemplateVariable, TemplateVariableType, FallbackValue, TemplatePublicationSource,
}
use hayasend.Catalog.Templates.Laws.{TemplateStep}
use hayasend.Templates.Effects.Replacing.{UpdateEnds}
use hayasend.Templates.Effects.Restoring.{RestoreEnds, DeleteEnds}
use hayasend.Templates.Effects.Creating.{CreateEnds}
use hayasend.Templates.Effects.Publishing.{PublishEnds}
use hayasend.Templates.Placeholders.{
  segments, segments_from, placeholder_at, keyed, closed, span_key, is_key_char,
}
use hayasend.Templates.Validation.{is_blank}
use hayasend.Templates.Render.{
  Value, Rendered, RenderTemplateInput, render_template_version, render_value, escape_html,
  resolve_values, values_each, value_fits, or_fallback, provided_value, variable_keys, fallback_of,
  prototype_names, rendered_version, given_or, given_list_or, render_segments, render_segment,
  shown_value, value_of, rendered_text, checked_rendering, safe_optional, safe_list, safe_each,
  ensure_safe_rendered_header, max_header_bytes, max_rendered_template_bytes,
}
use hayasend.Templates.Render.Escaping.{markup, literals, render_value-markup}
use hayasend.Templates.Render.Laws.{IsSafeHeader, rendering_is_safe, inherited_name_has_no_fallback}
use hayasend.Templates.Service
use hayasend.Templates.Service.{Environment, World, CreateTemplateInput, UpdateTemplateInput}
use hayasend.Templates.Publication
use hayasend.Templates.Publication.{TemplatePublicationContext}
use hayasend.Templates.Refine.{service_refines_store}
use hayasend.Tests.Samples.{strokes, test_platform}
use hayasend.Tests.Catalog.{one_template, test_version}

abbrev hostile : List (Text × Value)
hostile = (codes "NAME", Value.text (codes "<b>\"")) ∷ []

render_value-markup_example :
    markup (render_value true hostile (codes "<p>{{{ NAME }}}</p>"))
    ≡ markup (literals (segments (codes "<p>{{{ NAME }}}</p>")))
render_value-markup_example = render_value-markup hostile (codes "<p>{{{ NAME }}}</p>")

unfoldable render_run : Unit {0}
unfolding render_template_version resolve_values values_each value_fits or_fallback provided_value
    variable_keys fallback_of prototype_names rendered_version given_or given_list_or render_value
    render_segments render_segment shown_value value_of escape_html replace_all rendered_text
    segments segments_from placeholder_at keyed closed span_key is_key_char skip_white is_white
    checked_rendering safe_optional safe_list safe_each ensure_safe_rendered_header is_blank
    has_line_break is_line_break utf8_byte_length utf8_width utf16_length max_header_bytes
    max_rendered_template_bytes
render_run = tt

abbrev test_variable : String → TemplateVariable
test_variable key = record {
  id = "tmplvar_1";
  key = key;
  kind = TemplateVariableType.text;
  fallback_value = FallbackValue.text "you";
  created_at = "I";
  updated_at = "I";
}

abbrev greeting : String → TemplateVersion
greeting key = record (test_version none) {
  html = "a{{{ N }}}";
  text = some "t";
  sender = some "shop@example.com";
  variables = test_variable key ∷ [];
}

abbrev plain_input : List (String × Value) → RenderTemplateInput
plain_input variables = record {
  sender = none;
  subject = none;
  reply_to = none;
  variables = variables;
}

abbrev greeted : Rendered
greeted = record {
  sender = some (codes "shop@example.com");
  subject = none;
  reply_to = none;
  html = codes "a&lt;";
  text = codes "t";
}

rendering_is_safe_example :
    ((t : Text) → greeted.sender ≡ some t → IsSafeHeader t)
    × ((t : Text) → greeted.subject ≡ some t → IsSafeHeader t)
    × ((ts : List Text) → greeted.reply_to ≡ some ts → All IsSafeHeader ts)
    × (utf8_byte_length greeted.html + utf8_byte_length greeted.text ≤ 1048576)
unfolding render_run
rendering_is_safe_example =
    rendering_is_safe (λ t. t) (greeting "N") (plain_input (("N", Value.text (codes "<")) ∷ []))
      greeted refl

inherited_name_has_no_fallback_example :
    render_template_version (λ t. t) (greeting "constructor") (plain_input []) ≢ ok greeted
unfolding prototype_names variable_keys
inherited_name_has_no_fallback_example =
    inherited_name_has_no_fallback (λ t. t) (greeting "constructor") (plain_input []) "constructor"
      greeted refl refl tt

abbrev test_service : Environment
test_service = record {
  create_id = λ prefix n. strokes n;
  stringify = λ value. "{}";
  plain_text = λ t. t;
}

abbrev test_context : TemplatePublicationContext
test_context = record {
  actor = record { id = "system"; name = "System" };
  source = TemplatePublicationSource.api;
}

abbrev test_templates : World
test_templates = record { store = one_template; minted = 0 }

service_refines_store_example :
    ((input : CreateTemplateInput) (now : ℕ)
      → let out = Service.create test_platform test_service input now test_templates in
        ((out.1.store ≡ one_template) ⊎ TemplateStep test_platform one_template out.1.store)
        × CreateEnds test_platform test_service input now test_templates out)
    × ((identifier : String) (input : UpdateTemplateInput) (now : ℕ)
        → let out = Service.update test_platform test_service identifier input now test_templates in
          ((out.1.store ≡ one_template) ⊎ TemplateStep test_platform one_template out.1.store)
          × UpdateEnds test_platform test_service identifier input now test_templates out)
    × ((identifier version_id expected : String) (now : ℕ)
        → let out =
            Service.restore_version test_platform test_service identifier version_id expected now
              test_templates in
          ((out.1.store ≡ one_template) ⊎ TemplateStep test_platform one_template out.1.store)
          × RestoreEnds test_platform test_service identifier version_id expected now test_templates
              out)
    × ((identifier : String) (now : ℕ) (expected : Option String)
        → let out =
            Publication.publish test_platform
              (record { retention_days = 90; limit = 50 })
              identifier
              now
              expected
              test_context
              test_templates in
          ((out.1.store ≡ one_template) ⊎ TemplateStep test_platform one_template out.1.store)
          × PublishEnds test_platform
              (record { retention_days = 90; limit = 50 })
              identifier
              now
              expected
              test_context
              test_templates
              out)
    × ((identifier : String)
        → let out = Service.delete test_platform test_service identifier test_templates in
          ((out.1.store ≡ one_template) ⊎ TemplateStep test_platform one_template out.1.store)
          × DeleteEnds test_platform test_service identifier test_templates out)
unfolding IsKeyed get
service_refines_store_example =
    service_refines_store test_platform test_service (record { retention_days = 90; limit = 50 })
      test_context test_templates (refl, refl, tt)
