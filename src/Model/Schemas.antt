-- ===== src/Model/Schemas.antt =====
-- core/delivery-model.ts: what the zod schemas of the records test. `parse` gives back its
-- argument or throws a `ZodError`. The strict object shapes hold by the types.
pub mod Laws
use hayasend.Base.{
  ℕ, ◌≡◌, refl, String, Bool, true, false, not, ◌&&◌, ◌||◌, List, [], ◌∷◌, Option, none, some,
  Result, ok, err, schema_error, leb, if◌then◌else◌, ◌==◌, string_eq, length, all, is_some, unique,
  bool_eq,
}
use hayasend.Platform.{Platform, before}
use hayasend.Model.Status.{
  AttemptStatus, pending, submitting, retryable_failed, permanent_failed, attempt_status_eq,
}
use hayasend.Model.Formats.{
  codes, semantic_version, provider_name, sha256, message_id, recipient_id, attempt_id,
  provider_opaque_id, provider_message_id, provider_event_identity, outbox_identity,
}
use hayasend.Model.Identity.{
  EventSource, source_format, safe_integer, create_provider_event_identity, create_outbox_identity,
}
use hayasend.Model.Records.{
  ProviderReference, DeliveryMessageRecord, RecipientRecord, DeliveryAttemptRecord,
  ProviderEventRecord, OutboxItemRecord,
}

-- `.optional()`
abbrev pub optional {ℓ} : {A : Type ℓ} → (A → Bool) → Option A → Bool
optional test none = true
optional test (some a) = test a

-- `.min(1)` of an array, whose elements the test accepts.
abbrev pub non_empty : (String → Bool) → List String → Bool
non_empty test xs = leb 1 (length xs) && all test xs

unfoldable pub provider_reference_valid : ProviderReference → Bool
provider_reference_valid r =
    provider_name r.name
    && semantic_version r.adapter_version
    && semantic_version r.capability_version

-- pending and submitting have no completion.
unfoldable pub complete : AttemptStatus → Bool
complete s = not (s == pending || s == submitting)

unfoldable pub classified : AttemptStatus → Bool
classified s = s == retryable_failed || s == permanent_failed

-- The identity that a record must have is the one that its parts give.
abbrev is_identity : String → Result String → Bool
is_identity id (ok expected) = id == expected
is_identity id (err e) = false

module _ (p : Platform) where
  -- validateUpdatedAt, and the format of `updated_at`.
  unfoldable pub updated_at_valid : String → String → Bool
  updated_at_valid created updated = p.is_datetime updated && not (before p updated created)

  unfoldable pub message_format : DeliveryMessageRecord → Bool
  message_format m =
      message_id m.id
      && provider_reference_valid m.provider
      && sha256 m.intent_digest
      && non_empty recipient_id m.recipient_ids
      && p.is_datetime m.created_at
      && optional p.is_datetime m.scheduled_at

  -- deliveryMessageRecordSchema
  unfoldable pub message_valid : DeliveryMessageRecord → Bool
  message_valid m =
      (message_format m && unique m.recipient_ids) && updated_at_valid m.created_at m.updated_at

  unfoldable pub parse_message : DeliveryMessageRecord → Result DeliveryMessageRecord
  parse_message m = if message_valid m then ok m else err schema_error

  unfoldable pub recipient_format : RecipientRecord → Bool
  recipient_format r =
      recipient_id r.id
      && message_id r.message_id
      && safe_integer r.ordinal
      && (p.is_email r.address && leb (length (codes r.address)) 320)
      && p.is_datetime r.created_at

  -- recipientRecordSchema
  unfoldable pub recipient_valid : RecipientRecord → Bool
  recipient_valid r =
      (recipient_format r && optional attempt_id r.latest_attempt_id)
      && updated_at_valid r.created_at r.updated_at

  unfoldable pub parse_recipient : RecipientRecord → Result RecipientRecord
  parse_recipient r = if recipient_valid r then ok r else err schema_error

  unfoldable pub attempt_format : DeliveryAttemptRecord → Bool
  attempt_format a =
      attempt_id a.id
      && message_id a.message_id
      && non_empty recipient_id a.recipient_ids
      && (leb 1 a.sequence && safe_integer a.sequence)
      && provider_reference_valid a.provider
      && optional provider_message_id a.provider_message_id
      && p.is_datetime a.started_at
      && optional p.is_datetime a.completed_at

  unfoldable pub completed_in_order : String → Option String → Bool
  completed_in_order started none = true
  completed_in_order started (some t) = not (before p t started)

  -- deliveryAttemptRecordSchema
  unfoldable pub attempt_valid : DeliveryAttemptRecord → Bool
  attempt_valid a =
      attempt_format a
      && (unique a.recipient_ids
          && (complete a.status == is_some a.completed_at
              && (completed_in_order a.started_at a.completed_at
                  && classified a.status == is_some a.diagnostic_category)))

  unfoldable pub parse_attempt : DeliveryAttemptRecord → Result DeliveryAttemptRecord
  parse_attempt a = if attempt_valid a then ok a else err schema_error

  unfoldable pub event_format : ProviderEventRecord → Bool
  event_format e =
      provider_event_identity e.id
      && provider_reference_valid e.provider
      && source_format e.source
      && message_id e.message_id
      && optional attempt_id e.attempt_id
      && all recipient_id e.recipient_ids
      && optional provider_message_id e.provider_message_id
      && p.is_datetime e.provider_at
      && p.is_datetime e.received_at

  -- providerEventRecordSchema
  unfoldable pub event_valid : ProviderEventRecord → Bool
  event_valid e =
      event_format e
      && unique e.recipient_ids
      && is_identity e.id (create_provider_event_identity e.provider.name e.source)

  unfoldable pub parse_event : ProviderEventRecord → Result ProviderEventRecord
  parse_event e = if event_valid e then ok e else err schema_error

  unfoldable pub outbox_format : OutboxItemRecord → Bool
  outbox_format o =
      outbox_identity o.id
      && message_id o.message_id
      && safe_integer o.generation
      && p.is_datetime o.due_at
      && p.is_datetime o.created_at
      && optional p.is_datetime o.dispatched_at
      && is_identity o.id (create_outbox_identity o.message_id o.job_type o.generation)

  -- Owner and expiry stand together, and a dispatched item has neither.
  unfoldable pub lease_valid : OutboxItemRecord → Bool
  lease_valid o =
      is_some o.lease_owner == is_some o.lease_expires_at
      && not (is_some o.dispatched_at && is_some o.lease_owner)

  -- outboxItemRecordSchema
  unfoldable pub outbox_valid : OutboxItemRecord → Bool
  outbox_valid o =
      outbox_format o
      && safe_integer o.attempts
      && (optional provider_opaque_id o.lease_owner && optional p.is_datetime o.lease_expires_at)
      && updated_at_valid o.created_at o.updated_at
      && lease_valid o

  unfoldable pub parse_outbox : OutboxItemRecord → Result OutboxItemRecord
  parse_outbox o = if outbox_valid o then ok o else err schema_error

-- All of the schemas, for runs on concrete records.
unfoldable pub schemas_run : Unit {0}
unfolding before provider_reference_valid complete classified updated_at_valid message_format
    message_valid parse_message recipient_format recipient_valid parse_recipient completed_in_order
    attempt_format attempt_valid parse_attempt event_format event_valid parse_event outbox_format
    lease_valid outbox_valid parse_outbox semantic_version provider_name sha256 message_id
    recipient_id attempt_id provider_opaque_id provider_message_id provider_event_identity
    outbox_identity source_format create_provider_event_identity create_outbox_identity
schemas_run = tt
