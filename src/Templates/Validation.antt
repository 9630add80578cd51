-- ===== src/Templates/Validation.antt =====
-- services/template-service.ts: validateVariables, variableRecords, referencedVariables and
-- validateVersion. The type of a variable is one of two in the model, as in its type.
use hayasend.Base.{
  ℕ, suc, ◌*◌, String, Bool, true, false, not, ◌&&◌, ◌||◌, List, [], ◌∷◌, ◌++◌, map, Option, none,
  some, Result, ok, ◌>>◌, refuse_if, leb, ltb, nat_beq, if◌then◌else◌, ◌==◌, string_eq, nat_eq,
  list_eq, includes, all, any, length, validation_error,
}
use hayasend.Model.Formats.{codes}
use hayasend.Text.{Text, trim, utf16_length, utf8_byte_length, has_line_break}
use hayasend.Json.{Json, Items, Fields}
use hayasend.Jobs.{optional_field, json_texts}
use hayasend.Catalog.Records.{
  TemplateVariableType, FallbackValue, TemplateVariable, TemplateVersion,
}
use hayasend.Templates.Placeholders.{is_key_char, segments, segment_keys}

pub record TemplateVariableInput : Type 0 where
  pub key : String
  pub kind : TemplateVariableType
  pub fallback_value : FallbackValue

unfoldable pub reserved_variables : List String
reserved_variables =
    "FIRST_NAME" ∷ "LAST_NAME" ∷ "EMAIL" ∷ "UNSUBSCRIBE_URL" ∷ "RESEND_UNSUBSCRIBE_URL" ∷ "contact"
    ∷ "this" ∷ []

-- /^[A-Za-z0-9_]{1,50}$/
unfoldable pub variable_key : Text → Bool
variable_key t = all is_key_char t && ltb 0 (length t) && leb (length t) 50

-- A fallback has the type of its variable, is not too long, and is a safe integer.
unfoldable pub fallback_fits : TemplateVariableType → FallbackValue → Bool
fallback_fits kind FallbackValue.null = true
fallback_fits TemplateVariableType.text (FallbackValue.text t) =
    not (ltb 2000 (utf16_length (codes t)))
fallback_fits TemplateVariableType.number (FallbackValue.number shown safe) = safe
fallback_fits TemplateVariableType.number (FallbackValue.text t) = false
fallback_fits TemplateVariableType.text (FallbackValue.number shown safe) = false

unfoldable pub validate_each : List String → List TemplateVariableInput → Result (Unit {0})
validate_each seen [] = ok tt
validate_each seen (v ∷ vs) =
    refuse_if (not (variable_key (codes v.key))) validation_error
    >> (refuse_if (includes seen v.key) validation_error
        >> (refuse_if (includes reserved_variables v.key) validation_error
            >> (refuse_if (not (fallback_fits v.kind v.fallback_value)) validation_error
                >> validate_each (v.key ∷ seen) vs)))

unfoldable pub validate_variables : List TemplateVariableInput → Result (Unit {0})
validate_variables inputs =
    refuse_if (ltb 50 (length inputs)) validation_error >> validate_each [] inputs

-- previousByKey.get(key): of two variables with one key a Map holds the last.
unfoldable pub variable_by_key : String → List TemplateVariable → Option TemplateVariable
variable_by_key key [] = none
variable_by_key key (v ∷ vs) = elim (variable_by_key key vs) [
  | none ↦ if v.key == key then some v else none
  | some later ↦ some later
]

-- The record of an input, with the identifier and the time of creation of the one before it.
unfoldable pub variable_record :
    (ℕ → String)
    → ℕ
    → String
    → Option TemplateVariable
    → TemplateVariableInput
    → TemplateVariable × ℕ
variable_record create_id minted now none input = (
  record {
    id = create_id minted;
    key = input.key;
    kind = input.kind;
    fallback_value = input.fallback_value;
    created_at = now;
    updated_at = now;
  },
  suc minted,
)
variable_record create_id minted now (some existing) input = (
  record {
    id = existing.id;
    key = input.key;
    kind = input.kind;
    fallback_value = input.fallback_value;
    created_at = existing.created_at;
    updated_at = now;
  },
  minted,
)

unfoldable pub variable_records_each :
    (ℕ → String)
    → ℕ
    → String
    → List TemplateVariable
    → List TemplateVariableInput
    → List TemplateVariable × ℕ
variable_records_each create_id minted now previous [] = ([], minted)
variable_records_each create_id minted now previous (input ∷ inputs) =
    let (v, m) = variable_record create_id minted now (variable_by_key input.key previous) input in
    let (vs, m') = variable_records_each create_id m now previous inputs in (v ∷ vs, m')

-- With the count of the identifiers that were made.
unfoldable pub variable_records :
    (ℕ → String)
    → ℕ
    → List TemplateVariableInput
    → String
    → List TemplateVariable
    → Result (List TemplateVariable × ℕ)
variable_records create_id minted inputs now previous =
    validate_variables inputs >> ok (variable_records_each create_id minted now previous inputs)

unfoldable pub optional_text : Option String → List Text
optional_text none = []
optional_text (some t) = codes t ∷ []

unfoldable pub optional_texts : Option (List String) → List Text
optional_texts none = []
optional_texts (some ts) = map codes ts

unfoldable pub version_fields : TemplateVersion → List Text
version_fields v =
    codes v.html
    ∷ (optional_text v.text
        ++ (optional_text v.sender ++ (optional_text v.subject ++ optional_texts v.reply_to)))

unfoldable pub field_keys : List Text → List Text
field_keys [] = []
field_keys (t ∷ ts) = segment_keys (segments t) ++ field_keys ts

unfoldable pub referenced_variables : TemplateVersion → List Text
referenced_variables v = field_keys (version_fields v)

-- [a-z0-9]
unfoldable pub is_alias_end : ℕ → Bool
is_alias_end c = (leb b'a' c && leb c b'z') || (leb b'0' c && leb c b'9')

-- `(?:[a-z0-9_-]*[a-z0-9])?$`, after a first character: the last one is of `[a-z0-9]`.
unfoldable pub alias_rest : Text → Bool
alias_rest [] = true
alias_rest (c ∷ []) = is_alias_end c
alias_rest (c ∷ d ∷ ds) =
    (is_alias_end c || nat_beq c b'_' || nat_beq c b'-') && alias_rest (d ∷ ds)

unfoldable pub starts_with : Text → Text → Bool
starts_with [] t = true
starts_with (p ∷ ps) [] = false
starts_with (p ∷ ps) (c ∷ cs) = nat_beq p c && starts_with ps cs

-- ALIAS_PATTERN
unfoldable pub alias_pattern : Text → Bool
alias_pattern [] = false
alias_pattern (c ∷ cs) =
    not (starts_with (codes "tmpl_") (c ∷ cs)) && is_alias_end c && alias_rest cs

unfoldable pub alias_fits : Option String → Bool
alias_fits none = true
alias_fits (some alias) = not (ltb 128 (utf16_length (codes alias))) && alias_pattern (codes alias)

unfoldable pub json_of_fallback : FallbackValue → Json
json_of_fallback FallbackValue.null = Json.null
json_of_fallback (FallbackValue.text t) = Json.text t
json_of_fallback (FallbackValue.number shown safe) = Json.num shown

unfoldable pub kind_text : TemplateVariableType → String
kind_text TemplateVariableType.text = "string"
kind_text TemplateVariableType.number = "number"

unfoldable pub json_of_variable : TemplateVariable → Json
json_of_variable v = Json.obj (
    Fields.field "id" (Json.text v.id) (
      Fields.field "key" (Json.text v.key) (
        Fields.field "type" (Json.text (kind_text v.kind)) (
          Fields.field "fallback_value" (json_of_fallback v.fallback_value) (
            Fields.field "created_at" (Json.text v.created_at)
              (Fields.field "updated_at" (Json.text v.updated_at) Fields.end))))))

unfoldable pub json_of_variables : List TemplateVariable → Items
json_of_variables [] = Items.nil
json_of_variables (v ∷ vs) = Items.cons (json_of_variable v) (json_of_variables vs)

unfoldable pub optional_list_field : String → Option (List String) → Fields → Fields
optional_list_field k none rest = rest
optional_list_field k (some ts) rest = Fields.field k (Json.arr (json_texts ts)) rest

unfoldable pub json_of_version : TemplateVersion → Json
json_of_version v = Json.obj (
    Fields.field "name" (Json.text v.name) (
      Fields.field "html" (Json.text v.html) (
        optional_field "text" v.text (
          optional_field "alias" v.alias (
            optional_field "from" v.sender (
              optional_field "subject" v.subject (
                optional_list_field "reply_to" v.reply_to (
                  Fields.field "variables" (Json.arr (json_of_variables v.variables))
                    Fields.end))))))))

-- utf8ByteLength(JSON.stringify(...))
unfoldable pub template_bytes : (Json → String) → TemplateVersion → ℕ
template_bytes stringify v = utf8_byte_length (codes (stringify (json_of_version v)))

unfoldable pub max_template_bytes : ℕ
max_template_bytes = 128 * 1024

unfoldable pub is_blank : Text → Bool
is_blank [] = true
is_blank (c ∷ cs) = false

unfoldable pub declared_keys : TemplateVersion → List Text
declared_keys v = map (λ x. codes x.key) v.variables

unfoldable pub validate_version : (Json → String) → TemplateVersion → Result (Unit {0})
validate_version stringify v = do
  refuse_if (is_blank (trim (codes v.name)) || ltb 256 (utf16_length (codes v.name)))
      validation_error
  refuse_if (v.html == "") validation_error
  refuse_if (not (alias_fits v.alias)) validation_error
  refuse_if
      (any has_line_break
        (optional_text v.sender ++ (optional_text v.subject ++ optional_texts v.reply_to)))
      validation_error
  refuse_if (ltb max_template_bytes (template_bytes stringify v)) validation_error
  refuse_if (not (all (includes (declared_keys v)) (referenced_variables v))) validation_error
