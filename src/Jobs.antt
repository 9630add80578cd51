-- ===== src/Jobs.antt =====
-- core/job-envelope.ts: the deterministic envelopes of the queue. The hash of a job, the text of a
-- JSON value and the length of a text in UTF-8 are the runtime's.
pub mod Laws
use hayasend.Base.{
  ℕ, ◌+◌, ◌*◌, String, Bool, true, false, not, ◌&&◌, ◌||◌, Option, none, some, Result, ok, err,
  ◌>>=◌, ◌>>◌, refuse_if, ltb, if◌then◌else◌, ◌==◌, option_eq, string_eq, is_some, job_id_too_long,
  List, [], ◌∷◌, message_too_long, not_an_object, not_a_job,
}
use Prim.Native.String
use hayasend.Platform.{Platform, iso_of}
use hayasend.Json.{
  Json, Items, Fields, property, is_object, is_text, is_optional_text, is_object_property, text_of,
  equals_text,
}
use hayasend.Catalog.Enums.{WebhookEventType}
use hayasend.Catalog.Records.{WebhookEvent, WebhookEventData}

-- Job of core/types.ts.
pub data Job : Type 0 where
  send_email : String → Option String → Job
  reconcile_outbox : Option String → Job
  publish_received_email : String → Job
  deliver_webhook : String → Option String → WebhookEvent → Job

unfoldable pub event_type_text : WebhookEventType → String
event_type_text WebhookEventType.sent = "email.sent"
event_type_text WebhookEventType.delivered = "email.delivered"
event_type_text WebhookEventType.delivery_delayed = "email.delivery_delayed"
event_type_text WebhookEventType.opened = "email.opened"
event_type_text WebhookEventType.clicked = "email.clicked"
event_type_text WebhookEventType.bounced = "email.bounced"
event_type_text WebhookEventType.complained = "email.complained"
event_type_text WebhookEventType.failed = "email.failed"
event_type_text WebhookEventType.scheduled = "email.scheduled"
event_type_text WebhookEventType.suppressed = "email.suppressed"
event_type_text WebhookEventType.received = "email.received"

unfoldable pub json_texts : List String → Items
json_texts [] = Items.nil
json_texts (s ∷ ss) = Items.cons (Json.text s) (json_texts ss)

-- A property that is left out where it is undefined.
unfoldable pub optional_field : String → Option String → Fields → Fields
optional_field k none rest = rest
optional_field k (some v) rest = Fields.field k (Json.text v) rest

unfoldable pub json_of_event_data : WebhookEventData → Json
json_of_event_data d = Json.obj (
    Fields.field "created_at" (Json.text d.created_at) (
      Fields.field "email_id" (Json.text d.email_id) (
        Fields.field "from" (Json.text d.sender) (
          Fields.field "to" (Json.arr (json_texts d.recipients))
            (Fields.field "subject" (Json.text d.subject) d.extra)))))

unfoldable pub json_of_event : WebhookEvent → Json
json_of_event e = Json.obj (
    Fields.field "type" (Json.text (event_type_text e.kind)) (
      Fields.field "created_at" (Json.text e.created_at)
        (Fields.field "data" (json_of_event_data e.contents) Fields.end)))

-- A job as JSON keeps it.
unfoldable pub json_of_job : Job → Json
json_of_job (Job.send_email email_id job_id) = Json.obj (
    Fields.field "type" (Json.text "send_email")
      (Fields.field "email_id" (Json.text email_id) (optional_field "job_id" job_id Fields.end)))
json_of_job (Job.reconcile_outbox outbox_id) = Json.obj (
    Fields.field "type" (Json.text "reconcile_outbox")
      (optional_field "outbox_id" outbox_id Fields.end))
json_of_job (Job.publish_received_email email_id) = Json.obj (
    Fields.field "type" (Json.text "publish_received_email")
      (Fields.field "email_id" (Json.text email_id) Fields.end))
json_of_job (Job.deliver_webhook webhook_id delivery_id event) = Json.obj (
    Fields.field "type" (Json.text "deliver_webhook") (
      Fields.field "webhook_id" (Json.text webhook_id) (
        Fields.field "event" (json_of_event event)
          (optional_field "delivery_id" delivery_id Fields.end))))

-- isJob(value)
unfoldable pub is_job : Json → Bool
is_job value =
    if not (is_object value)
    then false
    else if equals_text (property "type" value) "send_email"
    then is_text (property "email_id" value) && is_optional_text (property "job_id" value)
    else if equals_text (property "type" value) "reconcile_outbox"
    then is_optional_text (property "outbox_id" value)
    else if equals_text (property "type" value) "publish_received_email"
    then is_text (property "email_id" value)
    else if equals_text (property "type" value) "deliver_webhook"
    then is_text (property "webhook_id" value)
      && is_optional_text (property "delivery_id" value)
      && is_object_property (property "event" value)
    else false

-- The identifier that a job brings itself.
unfoldable pub supplied_identity : Json → Option String
supplied_identity job =
    if equals_text (property "type" job) "send_email"
    then text_of (property "job_id" job)
    else if equals_text (property "type" job) "reconcile_outbox"
    then text_of (property "outbox_id" job)
    else if equals_text (property "type" job) "deliver_webhook"
    then text_of (property "delivery_id" job)
    else none

-- job.type.replaceAll("_", "-"), for the four types.
unfoldable pub dashed_type : Json → String
dashed_type job =
    if equals_text (property "type" job) "send_email"
    then "send-email"
    else if equals_text (property "type" job) "reconcile_outbox"
    then "reconcile-outbox"
    else if equals_text (property "type" job) "deliver_webhook"
    then "deliver-webhook"
    else "publish-received-email"

pub record JobRuntime : Type 0 where
  -- requestHash(job)
  pub request_hash : Json → String
  -- JSON.stringify(value)
  pub stringify : Json → String
  pub utf8_length : String → ℕ

unfoldable pub max_job_envelope_bytes : ℕ
max_job_envelope_bytes = 128000

unfoldable pub max_job_id_bytes : ℕ
max_job_id_bytes = 2048

-- supplied ?? requestHash(job)
unfoldable pub or_hash : Option String → String → String
or_hash none hash = hash
or_hash (some supplied) hash = supplied

module _ (p : Platform) (rt : JobRuntime) where
  unfoldable pub job_identity : Json → String
  job_identity job = String.◌++◌ "job:v1:" (
      String.◌++◌ (dashed_type job)
        (String.◌++◌ ":" (or_hash (supplied_identity job) (rt.request_hash job))))

  unfoldable pub envelope_of : Json → String → Json
  envelope_of job created_at = Json.obj (
      Fields.field "schema_version" (Json.text "1.0.0") (
        Fields.field "id" (Json.text (job_identity job))
          (Fields.field "created_at" (Json.text created_at) (Fields.field "job" job Fields.end))))

  -- What is sent for the job at the time `now`.
  unfoldable pub create_job_envelope : Job → ℕ → Result Json
  create_job_envelope job now = do
    created_at ← iso_of p now
    refuse_if (ltb max_job_id_bytes (rt.utf8_length (job_identity (json_of_job job))))
        job_id_too_long
    refuse_if
        (ltb max_job_envelope_bytes
          (rt.utf8_length (rt.stringify (envelope_of (json_of_job job) created_at))))
        message_too_long
    ok (envelope_of (json_of_job job) created_at)

  -- typeof id === "string" and at most as long as an identifier may be
  unfoldable pub is_short_text : Option String → Bool
  is_short_text none = false
  is_short_text (some id) = not (ltb max_job_id_bytes (rt.utf8_length id))

  -- typeof created_at === "string" and a time
  unfoldable pub is_time_text : Option String → Bool
  is_time_text none = false
  is_time_text (some at) = is_some (p.date_parse at)

  unfoldable pub is_envelope_job : Option Json → Option String → Bool
  is_envelope_job none id = false
  is_envelope_job (some job) id = is_job job && id == some (job_identity job)

  unfoldable pub is_envelope : Json → Bool
  is_envelope value =
      equals_text (property "schema_version" value) "1.0.0"
      && is_short_text (text_of (property "id" value))
      && is_time_text (text_of (property "created_at" value))
      && is_envelope_job (property "job" value) (text_of (property "id" value))

  unfoldable pub parse_job_envelope : Json → Result Json
  parse_job_envelope value = do
    refuse_if (not (is_object value)) not_an_object
    refuse_if (not (is_envelope value)) not_a_job
    refuse_if (ltb max_job_envelope_bytes (rt.utf8_length (rt.stringify value))) message_too_long
    ok value
