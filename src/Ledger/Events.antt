-- ===== src/Ledger/Events.antt =====
-- core/recipient-ledger.ts: the plans for a provider event and for a local state. Each checks the ledger, refuses what does not fit, and
-- gives the ledger to be committed with the identifiers of the recipients that it changed.
pub mod Laws
use hayasend.Base.{
  ℕ, ◌+◌, String, Bool, true, false, not, ◌&&◌, ◌||◌, List, [], ◌∷◌, ◌++◌, map, Option, none, some,
  Result, ok, err, ◌>>=◌, ◌>>◌, refuse_if, require, traverse, attempt_mismatch, not_queued,
  attempt_not_active, attempt_not_owner, event_not_correlated, submission_active, nat_beq, leb,
  if◌then◌else◌, ◌==◌, string_eq, nat_eq, option_eq, length, any, all, find, filter_by, includes,
  is_some,
}
use hayasend.Platform.{Platform, to_iso}
use hayasend.Model.Status.{
  EmailStatus, RecipientStatus, DiagnosticCategory, AttemptStatus, EventType, recipient_status_eq,
  attempt_status_eq, diagnostic_category_eq, provider_rejected, invalid_data,
}
use hayasend.Model.Records.{
  EmailRecord, DeliveryMessageRecord, RecipientRecord, DeliveryAttemptRecord, ProviderEventRecord,
  provider_reference_eq,
}
use hayasend.Model.Schemas.{parse_recipient, parse_attempt, parse_event}
use hayasend.Ledger.Status.{transition_recipient_status}
use hayasend.Ledger.Plans.{update_recipients, finish_plan}
use hayasend.Ledger.State.{
  DeliveryLedgerState, DeliveryLedgerPlan, ids, statuses, assert_ledger_state, update_message,
  update_email_for_recipients, latest_timestamp,
}

pub data LocalStatus : Type 0 where
  canceled suppressed : LocalStatus

abbrev pub recipient_status : LocalStatus → RecipientStatus
recipient_status canceled = RecipientStatus.canceled
recipient_status suppressed = RecipientStatus.suppressed

-- Exactly one attempt, of the given identifier.
unfoldable pub only_attempt : String → List DeliveryAttemptRecord → Bool
only_attempt id [] = false
only_attempt id (x ∷ []) = x.id == id
only_attempt id (x ∷ y ∷ rest) = false

-- The provider's message identifier of an event leads to the event's attempt alone.
unfoldable pub provider_id_correlates :
    Option String → DeliveryAttemptRecord → List DeliveryAttemptRecord → Bool
provider_id_correlates none a attempts = true
provider_id_correlates (some id) a attempts =
    only_attempt a.id (
      filter_by (λ x. x.status == AttemptStatus.accepted && x.provider_message_id == some id)
        attempts)
    && a.provider_message_id == some id

-- The condition under which `planProviderEvent` goes on, given the attempt of the event.
unfoldable pub event_correlates :
    DeliveryLedgerState → ProviderEventRecord → DeliveryAttemptRecord → Bool
event_correlates st e a =
    (e.message_id == st.message.id
      && e.provider == st.message.provider
      && a.status == AttemptStatus.accepted
      && a.provider == e.provider)
    && (provider_id_correlates e.provider_message_id a st.attempts
        && all (λ id. includes (ids st.recipients) id && includes a.recipient_ids id)
            e.recipient_ids)

-- The recipients whose status an event changes.
unfoldable pub moved_by : ProviderEventRecord → RecipientRecord → Bool
moved_by e r =
    includes e.recipient_ids r.id && not (transition_recipient_status r.status e.kind == r.status)

-- The recipients whose status a local state replaces.
unfoldable pub replaced_by : LocalStatus → RecipientRecord → Bool
replaced_by s r = not (
    r.status == RecipientStatus.complained
    || r.status == RecipientStatus.suppressed
    || r.status == recipient_status s)

module _ (p : Platform) where
  unfoldable pub plan_provider_event :
      DeliveryLedgerState → ProviderEventRecord → Result (DeliveryLedgerPlan × ProviderEventRecord)
  plan_provider_event input input_event = do
    st ← assert_ledger_state p input
    e ← parse_event p input_event
    a ← require (find (λ a. e.attempt_id == some a.id) st.attempts) event_not_correlated
    refuse_if (not (event_correlates st e a)) event_not_correlated
    timestamp ←
        latest_timestamp p (st.email.updated_at ∷ st.message.updated_at ∷ e.received_at ∷ [])
    plan ←
        finish_plan p st (moved_by e)
          (λ r. record r {
            status = transition_recipient_status r.status e.kind;
            updated_at = timestamp;
          })
          timestamp (λ email m rs. update_email_for_recipients email m rs timestamp none)
          st.attempts
    ok (plan, e)

  unfoldable pub plan_local_recipient_state :
      DeliveryLedgerState → LocalStatus → String → Result DeliveryLedgerPlan
  plan_local_recipient_state input status updated_at = do
    st ← assert_ledger_state p input
    refuse_if
        (any (λ a. a.status == AttemptStatus.submitting) st.attempts
          || any (λ r. r.status == RecipientStatus.sending) st.recipients)
        submission_active
    now ← to_iso p updated_at
    timestamp ← latest_timestamp p (st.email.updated_at ∷ st.message.updated_at ∷ now ∷ [])
    finish_plan p st (replaced_by status)
        (λ r. record r { status = recipient_status status; updated_at = timestamp }) timestamp
        (λ email m rs. update_email_for_recipients email m rs timestamp none) st.attempts
