-- ===== src/Ledger/State.antt =====
-- core/recipient-ledger.ts: the state of a ledger, the check that its records belong together, and
-- the updates that every plan shares.
use hayasend.Base.{
  ◌≡◌, refl, ℕ, String, Bool, not, ◌&&◌, List, [], ◌∷◌, map, Option, none, some, Result, ok, ◌>>=◌,
  ◌>>◌, refuse_if, require, traverse, ledger_mismatch, invalid_time, nat_beq, leb, if◌then◌else◌,
  ◌==◌, string_eq, nat_eq, length, all, includes, unique,
}
use hayasend.Platform.{Platform}
use hayasend.Model.Status.{EmailStatus, RecipientStatus}
use hayasend.Model.Records.{
  EmailRecord, DeliveryMessageRecord, RecipientRecord, DeliveryAttemptRecord, provider_reference_eq,
}
use hayasend.Model.Schemas.{parse_message, parse_recipient, parse_attempt}
use hayasend.Ledger.Status.{derive_delivery_message_status, derive_public_email_status}

pub record DeliveryLedgerState : Type 0 where
  pub email : EmailRecord
  pub message : DeliveryMessageRecord
  pub recipients : List RecipientRecord
  pub attempts : List DeliveryAttemptRecord

pub record DeliveryLedgerPlan : Type 0 where
  pub state : DeliveryLedgerState
  pub open state use *
  pub changed_recipient_ids : List String

abbrev pub ids : List RecipientRecord → List String
ids = map (λ r. r.id)

abbrev pub statuses : List RecipientRecord → List RecipientStatus
statuses = map (λ r. r.status)

-- An attempt of this message, by its provider, to its recipients.
unfoldable pub attempt_fits : DeliveryMessageRecord → List String → DeliveryAttemptRecord → Bool
attempt_fits m known a =
    a.message_id == m.id && (a.provider == m.provider && all (includes known) a.recipient_ids)

-- The condition under which `assertLedgerState` throws, negated part by part.
unfoldable pub belongs_together :
    EmailRecord → DeliveryMessageRecord → List RecipientRecord → List DeliveryAttemptRecord → Bool
belongs_together email m recipients attempts =
    (email.id == m.id
      && nat_beq (length recipients) (length m.recipient_ids)
      && all (includes (ids recipients)) m.recipient_ids
      && all (λ r. r.message_id == m.id) recipients)
    && (unique (map (λ a. a.id) attempts)
        && unique (map (λ a. a.sequence) attempts)
        && all (attempt_fits m (ids recipients)) attempts)

-- `a ?? b`
abbrev pub or_else {ℓ} : {A : Type ℓ} → Option A → Option A → Option A
or_else none b = b
or_else (some a) b = some a

pub or_else-none {ℓ} : {A : Type ℓ} (a : Option A) → or_else a none ≡ a
or_else-none none = refl
or_else-none (some a) = refl

-- `new Map(recipients.map(r => [r.id, r])).get(id)`: the last entry of a key counts.
unfoldable pub recipient_by_id : String → List RecipientRecord → Option RecipientRecord
recipient_by_id id [] = none
recipient_by_id id (r ∷ rs) = or_else (recipient_by_id id rs) (if r.id == id then some r else none)

abbrev pub prepend {ℓ} : {A : Type ℓ} → Option A → List A → List A
prepend none xs = xs
prepend (some a) xs = a ∷ xs

-- The recipients in the message's order. The check above has each identifier found.
unfoldable pub in_message_order : List String → List RecipientRecord → List RecipientRecord
in_message_order [] rs = []
in_message_order (id ∷ more) rs = prepend (recipient_by_id id rs) (in_message_order more rs)

-- The public name of a status.
unfoldable pub status_name : EmailStatus → String
status_name EmailStatus.queued = "queued"
status_name EmailStatus.scheduled = "scheduled"
status_name EmailStatus.sending = "sending"
status_name EmailStatus.sent = "sent"
status_name EmailStatus.delivered = "delivered"
status_name EmailStatus.delivery_delayed = "delivery_delayed"
status_name EmailStatus.opened = "opened"
status_name EmailStatus.clicked = "clicked"
status_name EmailStatus.bounced = "bounced"
status_name EmailStatus.complained = "complained"
status_name EmailStatus.failed = "failed"
status_name EmailStatus.canceled = "canceled"
status_name EmailStatus.suppressed = "suppressed"

unfoldable pub update_email_for_recipients :
    EmailRecord
    → DeliveryMessageRecord
    → List RecipientRecord
    → String
    → Option String
    → EmailRecord
update_email_for_recipients email m recipients updated_at public_error =
    let status = derive_public_email_status m.status (statuses recipients) in
    record email {
      status = status;
      last_event = status_name status;
      updated_at = updated_at;
      send_lease_until = none;
      error = public_error;
    }

module _ (p : Platform) where
  unfoldable pub assert_ledger_state : DeliveryLedgerState → Result DeliveryLedgerState
  assert_ledger_state st = do
    message ← parse_message p st.message
    recipients ← traverse (parse_recipient p) st.recipients
    attempts ← traverse (parse_attempt p) st.attempts
    refuse_if (not (belongs_together st.email message recipients attempts)) ledger_mismatch
    ok (record {
      email = st.email;
      message = message;
      recipients = in_message_order message.recipient_ids recipients;
      attempts = attempts;
    })

  unfoldable pub update_message :
      DeliveryMessageRecord → List RecipientRecord → String → Result DeliveryMessageRecord
  update_message m recipients updated_at = do
    status ← derive_delivery_message_status (statuses recipients)
    parse_message p (record m { status = status; updated_at = updated_at })

  -- Math.max(...values.map(Date.parse)), NaN if one of them is.
  unfoldable pub latest_time : List String → Option ℕ
  latest_time [] = some 0
  latest_time (s ∷ rest) = elim (p.date_parse s) [
    | none ↦ none
    | some t ↦ elim (latest_time rest) [ none ↦ none | some u ↦ some (if leb t u then u else t) ]
  ]

  unfoldable pub latest_timestamp : List String → Result String
  latest_timestamp values = do t ← require (latest_time values) invalid_time; ok (p.iso_string t)
