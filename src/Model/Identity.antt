-- ===== src/Model/Identity.antt =====
-- core/delivery-model.ts: the deterministic identities of provider events and outbox items.
use Prim.Native.Char.{Char, code}
use Prim.Native.String
use hayasend.Base.{
  ℕ, zero, suc, ◌+◌, ◌/◌, ◌%◌, String, Bool, ◌||◌, List, [], ◌∷◌, Result, ok, schema_error, nat_beq,
  ltb, if◌then◌else◌, any, refuse_if, ◌>>=◌, ◌>>◌, not, leb, ◌≡◌, refl, ap, ◌↔◌, true, false, Eq,
  ◌==◌, string_eq, beq→eq,
}
use hayasend.Model.Status.{JobType, dispatch_message, wake_scheduled_message, reconcile_message}
use hayasend.Model.Formats.{
  codes, id_char, provider_name, provider_opaque_id, sha256, provider_event_identity,
  outbox_identity, message_id,
}

-- The hexadecimal digit of a number below 16, in upper case.
hex_digits : ℕ → List String → String
hex_digits n [] = ""
hex_digits zero (d ∷ ds) = d
hex_digits (suc n) (d ∷ ds) = hex_digits n ds

hex : ℕ → String
unfolding hex_digits
hex n = hex_digits n (
    "0" ∷ "1" ∷ "2" ∷ "3" ∷ "4" ∷ "5" ∷ "6" ∷ "7" ∷ "8" ∷ "9" ∷ "A" ∷ "B" ∷ "C" ∷ "D" ∷ "E" ∷ "F"
    ∷ [])

-- encodeURIComponent keeps A-Z a-z 0-9 - _ . ! ~ * ' ( )
unreserved : ℕ → Bool
unfolding id_char
unreserved c = id_char c || any (nat_beq c) (codes ".!~*'()")

encode_char : Char → String
unfolding unreserved hex
encode_char c =
    if unreserved (code c)
    then String.◌∷◌ c ""
    else String.◌++◌ "%" (String.◌++◌ (hex (code c / 16)) (hex (code c % 16)))

-- identitySegment: encodeURIComponent of an ASCII text.
unfoldable pub identity_segment : String → String
unfolding encode_char
identity_segment String.[] = ""
identity_segment (String.◌∷◌ c s) = String.◌++◌ (encode_char c) (identity_segment s)

-- `${n}` in decimal.
decimal_from : ℕ → ℕ → String → String
unfolding hex
decimal_from zero n acc = acc
decimal_from (suc fuel) n acc =
    let rest = decimal_from fuel (n / 10) (String.◌++◌ (hex (n % 10)) acc) in
    if ltb n 10 then String.◌++◌ (hex n) acc else rest

unfoldable pub decimal : ℕ → String
unfolding decimal_from
decimal n = decimal_from (n + 1) n ""

-- [a, b, …].join(":")
unfoldable pub join : List String → String
join [] = ""
join (s ∷ []) = s
join (s ∷ t ∷ rest) = String.◌++◌ s (String.◌++◌ ":" (join (t ∷ rest)))

unfoldable pub job_name : JobType → String
job_name dispatch_message = "dispatch-message"
job_name wake_scheduled_message = "wake-scheduled-message"
job_name reconcile_message = "reconcile-message"

-- ProviderEventSource
pub data EventSource : Type 0 where
  provider_event_id : String → EventSource
  normalized_event_digest : String → EventSource

-- providerEventSourceSchema
unfoldable pub source_format : EventSource → Bool
unfolding provider_opaque_id sha256
source_format (provider_event_id v) = provider_opaque_id v
source_format (normalized_event_digest v) = sha256 v

source_kind : EventSource → String
source_kind (provider_event_id v) = "id"
source_kind (normalized_event_digest v) = "digest"

source_value : EventSource → String
source_value (provider_event_id v) = v
source_value (normalized_event_digest v) = v

-- Equality of the JSON of two sources.
abbrev pub event_source_beq : EventSource → EventSource → Bool
event_source_beq (provider_event_id v) (provider_event_id w) = v == w
event_source_beq (normalized_event_digest v) (normalized_event_digest w) = v == w
event_source_beq _ _ = false

pub event_source_beq_iff : (a b : EventSource) → (event_source_beq a b ≡ true) ↔ (a ≡ b)
event_source_beq_iff (provider_event_id v) (provider_event_id w) =
    (λ h. ap provider_event_id (beq→eq v w h), λ h. (string_eq.beq_iff v w).1 (cc))
event_source_beq_iff (normalized_event_digest v) (normalized_event_digest w) =
    (λ h. ap normalized_event_digest (beq→eq v w h), λ h. (string_eq.beq_iff v w).1 (cc))
event_source_beq_iff (provider_event_id v) (normalized_event_digest w) = (λ h. cc, λ h. cc)
event_source_beq_iff (normalized_event_digest v) (provider_event_id w) = (λ h. cc, λ h. cc)

instance abbrev pub event_source_eq : Eq EventSource
event_source_eq = record { beq = event_source_beq; beq_iff = event_source_beq_iff }

-- schema.parse(value)
abbrev pub parse_text : (String → Bool) → String → Result String
parse_text format s = refuse_if (not (format s)) schema_error >> ok s

unfoldable pub create_provider_event_identity : String → EventSource → Result String
unfolding provider_name source_format source_kind source_value identity_segment join
    provider_event_identity
create_provider_event_identity provider source = do
  name ← parse_text provider_name provider
  refuse_if (not (source_format source)) schema_error
  parse_text provider_event_identity (
      join (
        "provider-event"
        ∷ "v1"
        ∷ identity_segment name
        ∷ source_kind source
        ∷ identity_segment (source_value source)
        ∷ []))

-- `.int()` of zod: a safe integer.
abbrev pub safe_integer : ℕ → Bool
safe_integer n = leb n 9007199254740991

unfoldable pub create_outbox_identity : String → JobType → ℕ → Result String
unfolding message_id outbox_identity identity_segment job_name decimal join
create_outbox_identity message job generation = do
  id ← parse_text message_id message
  refuse_if (not (safe_integer generation)) schema_error
  parse_text outbox_identity
      (join ("outbox" ∷ "v1" ∷ identity_segment id ∷ job_name job ∷ decimal generation ∷ []))

outbox_identity_test :
    create_outbox_identity "email_abcdefghijklmnop" dispatch_message 10
    ≡ ok "outbox:v1:email_abcdefghijklmnop:dispatch-message:10"
unfolding create_outbox_identity
outbox_identity_test = refl

event_identity_test :
    create_provider_event_identity "ses" (provider_event_id "a/b+c")
    ≡ ok "provider-event:v1:ses:id:a%2Fb%2Bc"
unfolding create_provider_event_identity
event_identity_test = refl
