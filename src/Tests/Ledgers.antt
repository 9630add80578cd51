-- ===== src/Tests/Ledgers.antt =====
-- A ledger from its start to a delivery, on the sample records.
use hayasend.Base.{ℕ, ◌≤◌, ◌≡◌, refl, String, true, [], ◌∷◌, none, some, ok, All}
use hayasend.Platform.{before, to_iso}
use hayasend.Model.Status.{
  EmailStatus, MessageStatus, AttemptStatus, RecipientStatus, attempt_status_eq,
}
use hayasend.Model.Records.{DeliveryAttemptRecord, ProviderEventRecord, RecipientRecord}
use hayasend.Model.Schemas.{schemas_run}
use hayasend.Ledger.Status.{
  transition_recipient_status, derive_delivery_message_status, derive_public_email_status,
}
use hayasend.Ledger.State.{
  DeliveryLedgerState, DeliveryLedgerPlan, belongs_together, attempt_fits, recipient_by_id,
  in_message_order, status_name, update_email_for_recipients, assert_ledger_state, update_message,
  latest_time, latest_timestamp,
}
use hayasend.Ledger.Plans.{update_recipients, finish_plan}
use hayasend.Ledger.Attempts.{
  Outcome, AttemptCompletion, attempt_matches, max_sequence, attempt_status, completed_status,
  failure_status, replace_first, completed_email, this_attempt, owned_by, not_sending,
  plan_attempt_start, plan_attempt_completion,
}
use hayasend.Ledger.Events.{
  canceled, only_attempt, provider_id_correlates, event_correlates, moved_by, replaced_by,
  plan_provider_event, plan_local_recipient_state,
}
use hayasend.Ledger.Invariant.{IsLedger, assert_ledger_state_sound, assert_ledger_state_complete}
use hayasend.Ledger.Life.{starts, completes, receives, Reach, begins, next}
use hayasend.Ledger.Life.Submissions.{live_count}
use hayasend.Ledger.Life.Exclusive.{SentBy, passed}
use hayasend.Ledger.Life.Once.{
  submitted_once, active_attempt_owns_recipients, accepted_attempt_settles_recipients,
}
use hayasend.Ledger.Sound.{Planned, Planned-IsLedger, plan_local_recipient_state-IsLedger}
use hayasend.Tests.Samples.{
  test_platform, test_id, ann, bob, test_email, test_message, test_recipient, test_ledger,
  test_attempt, test_event,
}

unfoldable pub ledger_run : Unit {0}
unfolding schemas_run before to_iso transition_recipient_status derive_delivery_message_status
    derive_public_email_status belongs_together attempt_fits recipient_by_id in_message_order
    status_name update_email_for_recipients assert_ledger_state update_message latest_time
    latest_timestamp update_recipients finish_plan attempt_matches max_sequence attempt_status
    completed_status failure_status replace_first completed_email this_attempt owned_by not_sending
    plan_attempt_start plan_attempt_completion only_attempt provider_id_correlates event_correlates
    moved_by replaced_by plan_provider_event plan_local_recipient_state
ledger_run = tt

abbrev pub sorted_ledger : DeliveryLedgerState
sorted_ledger = record test_ledger {
  recipients = test_recipient ann 0 "ann@example.com" ∷ test_recipient bob 1 "bob@example.com" ∷ [];
}

sorted_run : assert_ledger_state test_platform test_ledger ≡ ok sorted_ledger
unfolding ledger_run
sorted_run = refl

-- The recipients with the given statuses, after the first attempt, changed at a time.
abbrev pub sent_to : String → ℕ → String → RecipientStatus → String → RecipientRecord
sent_to id n address status updated_at = record (test_recipient id n address) {
  status = status;
  latest_attempt_id = some test_attempt.id;
  updated_at = updated_at;
}

abbrev pub started : DeliveryLedgerPlan × DeliveryAttemptRecord
started = (
  record {
    state = record {
      email = record test_email {
        status = EmailStatus.sending;
        last_event = "sending";
        updated_at = "II";
      };
      message = record test_message { status = MessageStatus.sending; updated_at = "II" };
      recipients =
          sent_to ann 0 "ann@example.com" RecipientStatus.sending "II"
          ∷ sent_to bob 1 "bob@example.com" RecipientStatus.sending "II"
          ∷ [];
      attempts = test_attempt ∷ [];
    };
    changed_recipient_ids = ann ∷ bob ∷ [];
  },
  test_attempt,
)

started_run : plan_attempt_start test_platform test_ledger test_attempt ≡ ok started
unfolding ledger_run
started_run = refl

abbrev pub test_completion : AttemptCompletion
test_completion = record {
  message_id = test_id;
  attempt_id = test_attempt.id;
  status = Outcome.accepted;
  completed_at = "III";
  provider_message_id = some "ses-1";
  diagnostic_category = none;
  public_error = none;
}

abbrev pub accepted_attempt : DeliveryAttemptRecord
accepted_attempt = record test_attempt {
  status = AttemptStatus.accepted;
  completed_at = some "III";
  provider_message_id = some "ses-1";
}

abbrev pub completed : DeliveryLedgerPlan × DeliveryAttemptRecord
completed = (
  record {
    state = record {
      email = record test_email {
        status = EmailStatus.sent;
        last_event = "sent";
        updated_at = "III";
        provider_id = some "ses-1";
      };
      message = record test_message { status = MessageStatus.accepted; updated_at = "III" };
      recipients =
          sent_to ann 0 "ann@example.com" RecipientStatus.accepted "III"
          ∷ sent_to bob 1 "bob@example.com" RecipientStatus.accepted "III"
          ∷ [];
      attempts = accepted_attempt ∷ [];
    };
    changed_recipient_ids = ann ∷ bob ∷ [];
  },
  accepted_attempt,
)

completed_run : plan_attempt_completion test_platform started.0.state test_completion ≡ ok completed
unfolding ledger_run
completed_run = refl

abbrev pub received : DeliveryLedgerPlan × ProviderEventRecord
received = (
  record {
    state = record {
      email = record completed.0.state.email {
        status = EmailStatus.delivered;
        last_event = "delivered";
        updated_at = "IIII";
      };
      message = record test_message {
        status = MessageStatus.partially_delivered;
        updated_at = "IIII";
      };
      recipients =
          sent_to ann 0 "ann@example.com" RecipientStatus.accepted "III"
          ∷ sent_to bob 1 "bob@example.com" RecipientStatus.delivered "IIII"
          ∷ [];
      attempts = accepted_attempt ∷ [];
    };
    changed_recipient_ids = bob ∷ [];
  },
  test_event,
)

received_run : plan_provider_event test_platform completed.0.state test_event ≡ ok received
unfolding ledger_run
received_run = refl

abbrev canceled_plan : DeliveryLedgerPlan
canceled_plan = record {
  state = record {
    email = record test_email {
      status = EmailStatus.canceled;
      last_event = "canceled";
      updated_at = "II";
    };
    message = record test_message { status = MessageStatus.canceled; updated_at = "II" };
    recipients =
        record (test_recipient ann 0 "ann@example.com") {
          status = RecipientStatus.canceled;
          updated_at = "II";
        }
        ∷ record (test_recipient bob 1 "bob@example.com") {
          status = RecipientStatus.canceled;
          updated_at = "II";
        }
        ∷ [];
    attempts = [];
  };
  changed_recipient_ids = ann ∷ bob ∷ [];
}

canceled_run : plan_local_recipient_state test_platform test_ledger canceled "II" ≡ ok canceled_plan
unfolding ledger_run
canceled_run = refl

started-Reach : Reach test_platform started.0.state
started-Reach = next (begins test_ledger refl) (starts test_attempt started_run)

completed-Reach : Reach test_platform completed.0.state
completed-Reach = next started-Reach (completes test_completion completed_run)

submitted_once_example : live_count received.0.state.attempts ≤ 1
submitted_once_example =
    submitted_once test_platform received.0.state
      (next completed-Reach (receives test_event received_run))

active_attempt_owns_recipients_example : All (SentBy test_attempt) started.0.state.recipients
active_attempt_owns_recipients_example =
    active_attempt_owns_recipients test_platform started.0.state test_attempt started-Reach refl

accepted_attempt_settles_recipients_example :
    All (λ r. passed r ≡ true) completed.0.state.recipients
accepted_attempt_settles_recipients_example =
    accepted_attempt_settles_recipients test_platform completed.0.state completed.1 completed-Reach
      refl

Planned-IsLedger_example : IsLedger test_platform received.0.state
Planned-IsLedger_example =
    Planned-IsLedger test_platform completed.0.state received.0
      (Planned.by_event test_event received_run)

canceled-IsLedger : IsLedger test_platform canceled_plan.state
canceled-IsLedger =
    plan_local_recipient_state-IsLedger test_platform test_ledger canceled "II" canceled_plan
      canceled_run

assert_ledger_state_sound_example : IsLedger test_platform sorted_ledger
assert_ledger_state_sound_example = assert_ledger_state_sound test_platform test_ledger sorted_run

sorted-IsLedger : IsLedger test_platform sorted_ledger
sorted-IsLedger = assert_ledger_state_sound test_platform test_ledger sorted_run

assert_ledger_state_complete_example :
    assert_ledger_state test_platform sorted_ledger ≡ ok sorted_ledger
assert_ledger_state_complete_example =
    assert_ledger_state_complete test_platform sorted_ledger sorted-IsLedger
