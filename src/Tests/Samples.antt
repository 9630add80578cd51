-- ===== src/Tests/Samples.antt =====
-- A lawful platform, on which a time is written as so many strokes, and the records of one message
-- to two recipients.
use hayasend.Base.{
  ℕ, zero, suc, ◌≡◌, refl, ap, String, true, false, List, [], ◌∷◌, none, some, leb, leb_iff, arith,
}
use hayasend.Platform.{Platform, IsLawful}
use hayasend.Model.Status.{
  EnvelopeRole, MessageStatus, RecipientStatus, AttemptStatus, EventType, dispatch_message,
  EmailStatus,
}
use hayasend.Model.Identity.{provider_event_id}
use hayasend.Model.Records.{
  ProviderReference, DeliveryMessageRecord, RecipientRecord, DeliveryAttemptRecord,
  ProviderEventRecord, OutboxItemRecord, EmailRecord,
}
use hayasend.Catalog.Templates.Retained.{Orders}
use hayasend.Ledger.State.{DeliveryLedgerState}
use hayasend.Commit.{IdempotencyClaim, DeliveryCommit}
use hayasend.Store.State.{MemoryStore, Hook}

abbrev pub strokes : ℕ → String
strokes zero = ""
strokes (suc n) = String.◌∷◌ "I" (strokes n)

abbrev count_strokes : String → ℕ
count_strokes String.[] = 0
count_strokes (String.◌∷◌ c s) = suc (count_strokes s)

abbrev pub test_platform : Platform
test_platform = record {
  date_parse = λ s. some (count_strokes s);
  iso_string = strokes;
  is_datetime = λ s. true;
  is_email = λ s. true;
  locale_le = λ a b. leb (count_strokes a) (count_strokes b);
}

count_strokes-strokes : (n : ℕ) → count_strokes (strokes n) ≡ n
count_strokes-strokes zero = refl
count_strokes-strokes (suc n) = ap suc (count_strokes-strokes n)

pub test_platform-IsLawful : IsLawful test_platform
test_platform-IsLawful = record {
  parse-iso_string = λ t _. ap some (count_strokes-strokes t);
  datetime-iso_string = λ t _. refl;
}

pub test_platform-Orders : Orders test_platform
test_platform-Orders = record {
  total = λ a b h. ground (
    arith,
    leb_iff (count_strokes a) (count_strokes b),
    leb_iff (count_strokes b) (count_strokes a),
  );
  chain = λ a b c h k. ground (
    arith,
    leb_iff (count_strokes a) (count_strokes b),
    leb_iff (count_strokes b) (count_strokes c),
    leb_iff (count_strokes a) (count_strokes c),
  );
}

abbrev pub provider : ProviderReference
provider = record { name = "ses"; adapter_version = "1.0.0"; capability_version = "1.0.0" }

abbrev pub test_id : String
test_id = "email_abcdefghijklmnop"

abbrev pub ann : String
ann = "rcpt_abcdefghijklmnopqrstuv"

abbrev pub bob : String
bob = "rcpt_bcdefghijklmnopqrstuvw"

abbrev pub digest : String
digest = "0123456789abcdef0123456789abcdef0123456789abcdef0123456789abcdef"

abbrev pub test_email : EmailRecord
test_email = record {
  id = test_id;
  content = record {
    sender = "shop@example.com";
    recipients = "ann@example.com" ∷ "bob@example.com" ∷ [];
    subject = "Your order";
    html = none;
    text = some "Thank you.";
    payload_ref = none;
  };
  status = EmailStatus.queued;
  last_event = "queued";
  scheduled_at = none;
  created_at = "I";
  updated_at = "I";
  provider_id = none;
  request_hash = digest;
  attempts = 0;
  error = none;
  send_lease_until = none;
}

abbrev pub test_message : DeliveryMessageRecord
test_message = record {
  id = test_id;
  provider = provider;
  intent_digest = digest;
  recipient_ids = ann ∷ bob ∷ [];
  status = MessageStatus.queued;
  created_at = "I";
  updated_at = "I";
  scheduled_at = none;
}

abbrev pub test_recipient : String → ℕ → String → RecipientRecord
test_recipient id n address = record {
  id = id;
  message_id = test_id;
  role = EnvelopeRole.to;
  ordinal = n;
  address = address;
  status = RecipientStatus.queued;
  latest_attempt_id = none;
  created_at = "I";
  updated_at = "I";
}

-- Not in the order of the message.
abbrev pub test_recipients : List RecipientRecord
test_recipients =
    test_recipient bob 1 "bob@example.com" ∷ test_recipient ann 0 "ann@example.com" ∷ []

abbrev pub test_outbox : OutboxItemRecord
test_outbox = record {
  id = "outbox:v1:email_abcdefghijklmnop:dispatch-message:0";
  message_id = test_id;
  job_type = dispatch_message;
  generation = 0;
  due_at = "I";
  attempts = 0;
  lease_owner = none;
  lease_expires_at = none;
  dispatched_at = none;
  last_diagnostic_category = none;
  created_at = "I";
  updated_at = "I";
}

abbrev pub test_claim : IdempotencyClaim
test_claim = record { key_hash = "key"; request_hash = digest; expires_at = 100 }

abbrev pub test_commit : DeliveryCommit
test_commit = record {
  email = test_email;
  message = test_message;
  recipients = test_recipients;
  outbox = test_outbox;
  idempotency = some test_claim;
}

abbrev pub test_ledger : DeliveryLedgerState
test_ledger = record {
  email = test_email;
  message = test_message;
  recipients = test_recipients;
  attempts = [];
}

abbrev pub test_attempt : DeliveryAttemptRecord
test_attempt = record {
  id = "attempt_abcdefghijklmnopqrstuv";
  message_id = test_id;
  recipient_ids = ann ∷ bob ∷ [];
  sequence = 1;
  provider = provider;
  status = AttemptStatus.submitting;
  provider_message_id = none;
  diagnostic_category = none;
  started_at = "II";
  completed_at = none;
}

abbrev pub test_event : ProviderEventRecord
test_event = record {
  id = "provider-event:v1:ses:id:abc";
  provider = provider;
  source = provider_event_id "abc";
  message_id = test_id;
  attempt_id = some "attempt_abcdefghijklmnopqrstuv";
  recipient_ids = bob ∷ [];
  provider_message_id = none;
  kind = EventType.delivered;
  provider_at = "III";
  received_at = "IIII";
  terminal = true;
  diagnostic_category = none;
}

abbrev pub empty_store : MemoryStore
empty_store = record {
  emails = [];
  idempotency = [];
  delivery_messages = [];
  delivery_recipients = [];
  delivery_attempts = [];
  provider_events = [];
  outbox_items = [];
  outbox_by_message = [];
  outbox_publish_failures = 0;
}

-- A hook that never throws.
abbrev pub quiet : Hook
quiet = λ _ _. false
