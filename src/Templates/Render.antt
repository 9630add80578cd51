-- ===== src/Templates/Render.antt =====
-- services/template-service.ts: renderValue, ensureSafeRenderedHeader and renderTemplateVersion. What
-- html-to-text makes of the HTML is an argument.
pub mod Escaping
pub mod Laws
use hayasend.Base.{
  ℕ, ◌+◌, ◌*◌, String, Bool, true, false, not, ◌&&◌, List, [], ◌∷◌, ◌++◌, map, Option, none, some,
  Result, ok, err, ◌>>=◌, ◌>>◌, refuse_if, ltb, if◌then◌else◌, ◌==◌, string_eq, list_eq, nat_eq,
  includes, any, all, length, validation_error,
}
use hayasend.Model.Formats.{codes}
use hayasend.Text.{Text, utf16_length, utf8_byte_length, has_line_break, replace_all}
use hayasend.Catalog.Records.{
  TemplateVariableType, FallbackValue, TemplateVariable, TemplateVersion,
}
use hayasend.Templates.Placeholders.{Segment, segments}
use hayasend.Templates.Validation.{is_blank}

-- A value of a variable: a text, or a number by its text and whether it is a finite safe integer.
-- `inherited` is what a property lookup finds on Object.prototype, neither text nor number.
pub data Value : Type 0 where
  text : Text → Value
  number : Text → Bool → Value
  inherited : Value

-- String(value)
unfoldable pub shown_value : Option Value → Text
shown_value none = []
shown_value (some (Value.text t)) = t
shown_value (some (Value.number shown safe)) = shown
shown_value (some Value.inherited) = []

-- Of two entries with one key the Map holds the last.
unfoldable pub value_of : Text → List (Text × Value) → Option Value
value_of key [] = none
value_of key ((k, v) ∷ rest) = elim (value_of key rest) [
  | none ↦ if k == key then some v else none
  | some later ↦ some later
]

unfoldable pub escape_html : Text → Text
escape_html t = replace_all b'\'' (codes "&#39;") (
    replace_all b'"' (codes "&quot;") (
      replace_all b'>' (codes "&gt;")
        (replace_all b'<' (codes "&lt;") (replace_all b'&' (codes "&amp;") t))))

-- What stands for a segment in the rendered text.
unfoldable pub render_segment : Bool → List (Text × Value) → Segment → Text
render_segment escape values (Segment.literal c) = c ∷ []
render_segment escape values (Segment.placeholder key) =
    let shown = shown_value (value_of key values) in if escape then escape_html shown else shown

unfoldable pub render_segments : Bool → List (Text × Value) → List Segment → Text
render_segments escape values [] = []
render_segments escape values (s ∷ ss) =
    render_segment escape values s ++ render_segments escape values ss

unfoldable pub render_value : Bool → List (Text × Value) → Text → Text
render_value escape values t = render_segments escape values (segments t)

unfoldable pub max_header_bytes : ℕ
max_header_bytes = 998

unfoldable pub ensure_safe_rendered_header : Text → Result (Unit {0})
ensure_safe_rendered_header t =
    refuse_if (has_line_break t) validation_error
    >> refuse_if (ltb max_header_bytes (utf8_byte_length t)) validation_error

pub record RenderTemplateInput : Type 0 where
  pub sender : Option String
  pub subject : Option String
  pub reply_to : Option (List String)
  -- the own properties of `variables`
  pub variables : List (String × Value)

-- The names of Object.prototype that a variable's key may have.
unfoldable pub prototype_names : List String
prototype_names =
    "constructor" ∷ "hasOwnProperty" ∷ "isPrototypeOf" ∷ "propertyIsEnumerable" ∷ "toLocaleString"
    ∷ "toString" ∷ "valueOf" ∷ "__proto__" ∷ "__defineGetter__" ∷ "__defineSetter__"
    ∷ "__lookupGetter__" ∷ "__lookupSetter__" ∷ []

-- `provided[key]`
unfoldable pub provided_value : String → List (String × Value) → Option Value
provided_value key [] = if includes prototype_names key then some Value.inherited else none
provided_value key ((k, v) ∷ rest) =
    let later = provided_value key rest in if k == key then some v else later

-- The value of a fallback; `null` is none.
unfoldable pub fallback_of : FallbackValue → Option Value
fallback_of FallbackValue.null = none
fallback_of (FallbackValue.text t) = some (Value.text (codes t))
fallback_of (FallbackValue.number shown safe) = some (Value.number (codes shown) safe)

-- `provided[key] ?? fallback_value`
unfoldable pub or_fallback : Option Value → FallbackValue → Option Value
or_fallback none fallback = fallback_of fallback
or_fallback (some v) fallback = some v

-- The value has the type of its variable, is not too long, and is a safe integer.
unfoldable pub value_fits : TemplateVariableType → Option Value → Result Value
value_fits kind none = err validation_error
value_fits kind (some Value.inherited) = err validation_error
value_fits TemplateVariableType.text (some (Value.text t)) =
    refuse_if (ltb 2000 (utf16_length t)) validation_error >> ok (Value.text t)
value_fits TemplateVariableType.number (some (Value.number shown safe)) =
    refuse_if (not safe) validation_error >> ok (Value.number shown safe)
value_fits TemplateVariableType.text (some (Value.number shown safe)) = err validation_error
value_fits TemplateVariableType.number (some (Value.text t)) = err validation_error

unfoldable pub values_each :
    List (String × Value) → List TemplateVariable → Result (List (Text × Value))
values_each provided [] = ok []
values_each provided (v ∷ vs) =
    value_fits v.kind (or_fallback (provided_value v.key provided) v.fallback_value) >>= λ value.
    values_each provided vs >>= λ rest. ok ((codes v.key, value) ∷ rest)

unfoldable pub variable_keys : List TemplateVariable → List String
variable_keys vs = map (λ v. v.key) vs

-- At most fifty variables, all of them declared, and a value for each that is declared.
unfoldable pub resolve_values :
    TemplateVersion → List (String × Value) → Result (List (Text × Value))
resolve_values version provided = do
  refuse_if (ltb 50 (length provided)) validation_error
  refuse_if
      (not (all (λ k. includes (variable_keys version.variables) k) (map (λ e. e.0) provided)))
      validation_error
  values_each provided version.variables

-- `input ?? rendered`
unfoldable pub given_or : Option String → List (Text × Value) → Option String → Option Text
given_or (some t) values template = some (codes t)
given_or none values none = none
given_or none values (some t) = some (render_value false values (codes t))

unfoldable pub given_list_or :
    Option (List String) → List (Text × Value) → Option (List String) → Option (List Text)
given_list_or (some ts) values template = some (map codes ts)
given_list_or none values none = none
given_list_or none values (some ts) = some (map (λ t. render_value false values (codes t)) ts)

-- `if (value) ensureSafeRenderedHeader(value)`
unfoldable pub safe_optional : Option Text → Result (Unit {0})
safe_optional none = ok tt
safe_optional (some t) = if is_blank t then ok tt else ensure_safe_rendered_header t

unfoldable pub safe_each : List Text → Result (Unit {0})
safe_each [] = ok tt
safe_each (t ∷ ts) = ensure_safe_rendered_header t >> safe_each ts

unfoldable pub safe_list : Option (List Text) → Result (Unit {0})
safe_list none = ok tt
safe_list (some ts) = safe_each ts

unfoldable pub max_rendered_template_bytes : ℕ
max_rendered_template_bytes = 1024 * 1024

pub record Rendered : Type 0 where
  pub sender : Option Text
  pub subject : Option Text
  pub reply_to : Option (List Text)
  pub html : Text
  pub text : Text

-- The text of the version, or what is made of its HTML.
unfoldable pub rendered_text : (Text → Text) → List (Text × Value) → Text → Option String → Text
rendered_text plain_text values html none = plain_text html
rendered_text plain_text values html (some t) = render_value false values (codes t)

unfoldable pub rendered_version :
    (Text → Text) → TemplateVersion → RenderTemplateInput → List (Text × Value) → Rendered
rendered_version plain_text version input values =
    let html : Text = render_value true values (codes version.html) in
    record {
      sender = given_or input.sender values version.sender;
      subject = given_or input.subject values version.subject;
      reply_to = given_list_or input.reply_to values version.reply_to;
      html = html;
      text = rendered_text plain_text values html version.text;
    }

unfoldable pub checked_rendering : Rendered → Result Rendered
checked_rendering r = do
  refuse_if (ltb max_rendered_template_bytes (utf8_byte_length r.html)) validation_error
  refuse_if (ltb max_rendered_template_bytes (utf8_byte_length r.html + utf8_byte_length r.text))
      validation_error
  safe_optional r.sender
  safe_optional r.subject
  safe_list r.reply_to
  ok r

unfoldable pub render_template_version :
    (Text → Text) → TemplateVersion → RenderTemplateInput → Result Rendered
render_template_version plain_text version input =
    resolve_values version input.variables >>= λ values.
    checked_rendering (rendered_version plain_text version input values)
