-- ===== src/Commit.antt =====
-- core/delivery-commit.ts: the records of one send, which are stored together or not at all.
pub mod Laws
use Prim.Native.Char.{code}
use hayasend.Base.{
  ℕ, ◌+◌, String, Bool, true, false, not, ◌&&◌, ◌||◌, List, [], ◌∷◌, map, Option, none, some,
  Result, ok, err, ◌>>=◌, ◌>>◌, refuse_if, traverse, not_dispatchable, message_mismatch,
  claim_mismatch, recipients_mismatch, recipients_repeated, outbox_mismatch, nat_beq, leb,
  if◌then◌else◌, ◌==◌, string_eq, nat_eq, option_eq, list_eq, pair_eq, length, any, all, includes,
  unique, is_some,
}
use hayasend.Platform.{Platform}
use hayasend.Model.Status.{
  EmailStatus, MessageStatus, RecipientStatus, EnvelopeRole, JobType, dispatch_message,
  email_status_eq, recipient_status_eq, envelope_role_eq, job_type_eq,
}
use hayasend.Model.Formats.{codes}
use hayasend.Model.Records.{EmailRecord, DeliveryMessageRecord, RecipientRecord, OutboxItemRecord}
use hayasend.Model.Schemas.{parse_message, parse_recipient, parse_outbox}

-- IdempotencyClaim of core/types.ts.
pub record IdempotencyClaim : Type 0 where
  pub key_hash : String
  pub request_hash : String
  pub expires_at : ℕ

pub record DeliveryCommit : Type 0 where
  pub email : EmailRecord
  pub message : DeliveryMessageRecord
  pub recipients : List RecipientRecord
  pub outbox : OutboxItemRecord
  pub idempotency : Option IdempotencyClaim

-- ["queued", "scheduled", "suppressed"].includes(status)
unfoldable pub dispatchable : EmailStatus → Bool
dispatchable s =
    s == EmailStatus.queued || s == EmailStatus.scheduled || s == EmailStatus.suppressed

-- `email.status === message.status`: the two enumerations share these names.
unfoldable pub same_status : EmailStatus → MessageStatus → Bool
same_status EmailStatus.queued MessageStatus.queued = true
same_status EmailStatus.scheduled MessageStatus.scheduled = true
same_status EmailStatus.sending MessageStatus.sending = true
same_status EmailStatus.delivered MessageStatus.delivered = true
same_status EmailStatus.delivery_delayed MessageStatus.delivery_delayed = true
same_status EmailStatus.bounced MessageStatus.bounced = true
same_status EmailStatus.complained MessageStatus.complained = true
same_status EmailStatus.failed MessageStatus.failed = true
same_status EmailStatus.canceled MessageStatus.canceled = true
same_status EmailStatus.suppressed MessageStatus.suppressed = true
same_status _ _ = false

unfoldable pub email_matches : EmailRecord → DeliveryMessageRecord → Bool
unfolding same_status
email_matches e m =
    e.id == m.id
    && e.request_hash == m.intent_digest
    && e.created_at == m.created_at
    && e.updated_at == m.updated_at
    && same_status e.status m.status
    && e.scheduled_at == m.scheduled_at

unfoldable pub claim_matches : EmailRecord → ℕ → Option IdempotencyClaim → Bool
claim_matches e now none = true
claim_matches e now (some c) = c.request_hash == e.request_hash && not (leb c.expires_at now)

unfoldable pub initial_recipient_status : EmailStatus → RecipientStatus
initial_recipient_status s =
    if s == EmailStatus.suppressed then RecipientStatus.suppressed else RecipientStatus.queued

unfoldable pub recipient_matches : EmailRecord → DeliveryMessageRecord → RecipientRecord → Bool
unfolding initial_recipient_status
recipient_matches e m r =
    r.message_id == m.id
    && r.status == initial_recipient_status e.status
    && not (is_some r.latest_attempt_id)
    && r.created_at == m.created_at
    && r.updated_at == m.updated_at

unfoldable pub recipients_match : EmailRecord → DeliveryMessageRecord → List RecipientRecord → Bool
unfolding recipient_matches
recipients_match e m rs =
    not (nat_beq (length rs) 0)
    && unique (map (λ r. r.id) rs)
    && nat_beq (length m.recipient_ids) (length rs)
    && all (includes (map (λ r. r.id) rs)) m.recipient_ids
    && all (recipient_matches e m) rs

-- toLowerCase of an address that the schema has accepted, which is ASCII.
unfoldable pub lower_case : String → List ℕ
lower_case s = map (λ c. if leb b'A' c && leb c b'Z' then c + 32 else c) (codes s)

-- `${role}:${ordinal}` tells the pairs of a role and an ordinal apart.
unfoldable pub position : RecipientRecord → EnvelopeRole × ℕ
position r = (r.role, r.ordinal)

unfoldable pub recipients_distinct : List RecipientRecord → Bool
unfolding lower_case position
recipients_distinct rs = unique (map (λ r. lower_case r.address) rs) && unique (map position rs)

unfoldable pub expected_due_at : EmailRecord → String
expected_due_at e = elim e.scheduled_at [ none ↦ e.created_at | some t ↦ t ]

unfoldable pub expected_dispatched_at : EmailRecord → Option String
expected_dispatched_at e = if e.status == EmailStatus.suppressed then some e.updated_at else none

unfoldable pub outbox_matches : EmailRecord → DeliveryMessageRecord → OutboxItemRecord → Bool
unfolding expected_due_at expected_dispatched_at
outbox_matches e m o =
    (o.message_id == m.id
      && o.job_type == dispatch_message
      && nat_beq o.generation 0
      && o.due_at == expected_due_at e
      && nat_beq o.attempts 0)
    && (not (is_some o.lease_owner)
        && not (is_some o.lease_expires_at)
        && o.dispatched_at == expected_dispatched_at e
        && not (is_some o.last_diagnostic_category)
        && o.created_at == m.created_at
        && o.updated_at == m.updated_at)

-- The current time, a natural number of seconds, needs no test.
unfoldable pub validate_delivery_commit : Platform → DeliveryCommit → ℕ → Result DeliveryCommit
validate_delivery_commit p input now = do
  message ← parse_message p input.message
  recipients ← traverse (parse_recipient p) input.recipients
  outbox ← parse_outbox p input.outbox
  refuse_if (not (dispatchable input.email.status)) not_dispatchable
  refuse_if (not (email_matches input.email message)) message_mismatch
  refuse_if (not (claim_matches input.email now input.idempotency)) claim_mismatch
  refuse_if (not (recipients_match input.email message recipients)) recipients_mismatch
  refuse_if (not (recipients_distinct recipients)) recipients_repeated
  refuse_if (not (outbox_matches input.email message outbox)) outbox_mismatch
  ok (record {
    email = input.email;
    message = message;
    recipients = recipients;
    outbox = outbox;
    idempotency = input.idempotency;
  })
