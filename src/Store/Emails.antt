-- ===== src/Store/Emails.antt =====
-- adapters/memory-store.ts: the public email record, outside a delivery's ledger.
use hayasend.Base.{
  ℕ, ◌+◌, ◌/◌, String, Bool, true, false, not, ◌&&◌, ◌||◌, List, Option, none, some, Result, ok,
  err, key_reused, email_unavailable, leb, ltb, if◌then◌else◌, ◌==◌, string_eq, is_some, includes,
}
use hayasend.Base.Assoc.{Assoc, get, put, values}
use hayasend.Platform.{Platform, iso_of}
use hayasend.Model.Status.{EmailStatus, MessageStatus, email_status_eq}
use hayasend.Model.Records.{EmailRecord, DeliveryMessageRecord, OutboxItemRecord}
use hayasend.Commit.{IdempotencyClaim}
use hayasend.Store.State.{IdempotencyEntry, MemoryStore, Outcome}
use hayasend.Store.Pages.{Page, page_from_map}
use hayasend.Store.Deliveries.{live_claim, outbox_of, entry_of}

pub record CreateEmailResult : Type 0 where
  pub email : EmailRecord
  pub replayed : Bool

unfoldable pub replay_email :
    IdempotencyClaim → IdempotencyEntry → MemoryStore → Result CreateEmailResult
replay_email c e s =
    if not (e.request_hash == c.request_hash)
    then err key_reused
    else elim (get e.email_id s.emails) [
      | none ↦ err email_unavailable
      | some email ↦ ok (record { email = email; replayed = true })
    ]

unfoldable pub put_claim :
    Option IdempotencyClaim → String → Assoc IdempotencyEntry → Assoc IdempotencyEntry
put_claim none email_id m = m
put_claim (some c) email_id m = put c.key_hash (entry_of c email_id) m

-- `now` is Date.now(), in milliseconds.
unfoldable pub create_email :
    EmailRecord → Option IdempotencyClaim → ℕ → MemoryStore → Outcome CreateEmailResult
create_email r claim now s = elim (live_claim claim (now / 1000) s.idempotency) [
  | some (c, e) ↦ (replay_email c e s, s)
  | none ↦ (
    ok (record { email = r; replayed = false }),
    record s { emails = put r.id r s.emails; idempotency = put_claim claim r.id s.idempotency },
  )
]

unfoldable pub get_email : String → MemoryStore → Option EmailRecord
get_email id s = get id s.emails

unfoldable pub list_emails : Platform → ℕ → Option String → MemoryStore → Result (Page EmailRecord)
list_emails p limit cursor s =
    page_from_map (λ r. r.id) p (λ r. r.created_at) (values s.emails) limit cursor

unfoldable pub lease_expired : EmailRecord → ℕ → Bool
lease_expired r now = elim r.send_lease_until [
  | none ↦ false
  | some until ↦ r.status == EmailStatus.sending && ltb until (now / 1000)
]

-- ["queued", "scheduled"].includes(status)
unfoldable pub waiting : EmailStatus → Bool
waiting s = s == EmailStatus.queued || s == EmailStatus.scheduled

unfoldable pub claimed_email : EmailRecord → ℕ → ℕ → String → EmailRecord
claimed_email r attempt now timestamp = record r {
  status = EmailStatus.sending;
  last_event = "sending";
  attempts = if leb attempt (r.attempts + 1) then r.attempts + 1 else attempt;
  updated_at = timestamp;
  send_lease_until = some (now / 1000 + 120);
  error = none;
}

-- `now` is now.getTime(), in milliseconds.
unfoldable pub claim_email_for_send :
    Platform → String → ℕ → ℕ → MemoryStore → Outcome (Option EmailRecord)
claim_email_for_send p id attempt now s = elim (get id s.emails) [
  | none ↦ (ok none, s)
  | some r ↦
      if not (waiting r.status) && not (lease_expired r now)
      then (ok none, s)
      else elim (iso_of p now) [
        | err e ↦ (err e, s)
        | ok timestamp ↦ (
          ok (some (claimed_email r attempt now timestamp)),
          record s { emails = put id (claimed_email r attempt now timestamp) s.emails },
        )
      ]
]

-- `fromStatuses === undefined || fromStatuses.includes(status)`
unfoldable pub allowed_from : Option (List EmailStatus) → EmailStatus → Bool
allowed_from none status = true
allowed_from (some statuses) status = includes statuses status

-- `updates` sets the fields of a partial record.
unfoldable pub update_email :
    String
    → (EmailRecord → EmailRecord)
    → Option (List EmailStatus)
    → MemoryStore
    → Outcome (Option EmailRecord)
update_email id updates from s = elim (get id s.emails) [
  | none ↦ (ok none, s)
  | some r ↦
      if not (allowed_from from r.status)
      then (ok none, s)
      else (ok (some (updates r)), record s { emails = put id (updates r) s.emails })
]

-- Neither dispatched nor leased.
unfoldable pub reschedulable : OutboxItemRecord → Bool
reschedulable o = not (is_some o.dispatched_at) && not (is_some o.lease_owner)

unfoldable pub rescheduled :
    String
    → String
    → String
    → EmailRecord
    → DeliveryMessageRecord
    → OutboxItemRecord
    → MemoryStore
    → Outcome (Option EmailRecord)
rescheduled id at timestamp email message outbox s =
    let updated : EmailRecord = record email {
      scheduled_at = some at;
      status = EmailStatus.scheduled;
      last_event = "scheduled";
      updated_at = timestamp;
    } in
    (
      ok (some updated),
      record s {
        emails = put id updated s.emails;
        delivery_messages =
            put id
              (record message {
                scheduled_at = some at;
                status = MessageStatus.scheduled;
                updated_at = timestamp;
              })
              s.delivery_messages;
        outbox_items =
            put outbox.id (record outbox { due_at = at; updated_at = timestamp }) s.outbox_items;
      },
    )

unfoldable pub reschedule_email_and_outbox :
    Platform → String → String → ℕ → MemoryStore → Outcome (Option EmailRecord)
reschedule_email_and_outbox p id at now s = elim (get id s.emails) [
  | none ↦ (ok none, s)
  | some email ↦ elim (get id s.delivery_messages) [
    | none ↦ (ok none, s)
    | some message ↦ elim (outbox_of id s) [
      | none ↦ (ok none, s)
      | some outbox ↦
          if not (waiting email.status && reschedulable outbox)
          then (ok none, s)
          else elim (iso_of p now) [
            | err e ↦ (err e, s)
            | ok timestamp ↦ rescheduled id at timestamp email message outbox s
          ]
    ]
  ]
]
