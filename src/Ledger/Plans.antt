-- ===== src/Ledger/Plans.antt =====
-- core/recipient-ledger.ts: what every plan does once its guards have passed.
pub mod Laws
pub mod Keeps
use hayasend.Base.{
  ℕ, ◌+◌, String, Bool, true, false, not, ◌&&◌, ◌||◌, List, [], ◌∷◌, ◌++◌, map, Option, none, some,
  Result, ok, err, ◌>>=◌, ◌>>◌, refuse_if, require, traverse, attempt_mismatch, not_queued,
  attempt_not_active, attempt_not_owner, event_not_correlated, submission_active, nat_beq, leb,
  if◌then◌else◌, ◌==◌, string_eq, nat_eq, option_eq, length, any, all, find, filter_by, includes,
  is_some,
}
use hayasend.Platform.{Platform, to_iso}
use hayasend.Model.Status.{
  EmailStatus, RecipientStatus, DiagnosticCategory, AttemptStatus, EventType, recipient_status_eq,
  attempt_status_eq, diagnostic_category_eq, provider_rejected, invalid_data,
}
use hayasend.Model.Records.{
  EmailRecord, DeliveryMessageRecord, RecipientRecord, DeliveryAttemptRecord, ProviderEventRecord,
  provider_reference_eq,
}
use hayasend.Model.Schemas.{parse_recipient, parse_attempt, parse_event}
use hayasend.Ledger.Status.{transition_recipient_status}
use hayasend.Ledger.State.{
  DeliveryLedgerState, DeliveryLedgerPlan, ids, statuses, assert_ledger_state, update_message,
  update_email_for_recipients, latest_timestamp,
}

module _ (p : Platform) where
  -- `recipients.map(...)`: a recipient that the test picks is changed and parsed again.
  unfoldable pub update_recipients :
      (RecipientRecord → Bool)
      → (RecipientRecord → RecipientRecord)
      → List RecipientRecord
      → Result (List RecipientRecord)
  update_recipients picked change =
      traverse (λ r. if picked r then parse_recipient p (change r) else ok r)

  -- What every plan does with its recipients: update them, the message and the email.
  unfoldable pub finish_plan :
      DeliveryLedgerState
      → (RecipientRecord → Bool)
      → (RecipientRecord → RecipientRecord)
      → String
      → (EmailRecord → DeliveryMessageRecord → List RecipientRecord → EmailRecord)
      → List DeliveryAttemptRecord
      → Result DeliveryLedgerPlan
  finish_plan st picked change timestamp email_of attempts = do
    recipients ← update_recipients picked change st.recipients
    message ← update_message p st.message recipients timestamp
    ok (record {
      state = record {
        email = email_of st.email message recipients;
        message = message;
        recipients = recipients;
        attempts = attempts;
      };
      changed_recipient_ids = ids (filter_by picked st.recipients);
    })
