-- ===== src/Ledger/Attempts.antt =====
-- core/recipient-ledger.ts: the plans for a submission attempt. Each checks the ledger, refuses what does not fit, and
-- gives the ledger to be committed with the identifiers of the recipients that it changed.
pub mod Laws
pub mod Keeps
use hayasend.Base.{
  ℕ, ◌+◌, String, Bool, true, false, not, ◌&&◌, ◌||◌, List, [], ◌∷◌, ◌++◌, map, Option, none, some,
  Result, ok, err, ◌>>=◌, ◌>>◌, refuse_if, require, traverse, attempt_mismatch, not_queued,
  attempt_not_active, attempt_not_owner, event_not_correlated, submission_active, nat_beq, leb,
  if◌then◌else◌, ◌==◌, string_eq, nat_eq, option_eq, length, any, all, find, filter_by, includes,
  is_some,
}
use hayasend.Platform.{Platform, to_iso}
use hayasend.Model.Status.{
  EmailStatus, RecipientStatus, DiagnosticCategory, AttemptStatus, EventType, recipient_status_eq,
  attempt_status_eq, diagnostic_category_eq, provider_rejected, invalid_data,
}
use hayasend.Model.Records.{
  EmailRecord, DeliveryMessageRecord, RecipientRecord, DeliveryAttemptRecord, ProviderEventRecord,
  provider_reference_eq,
}
use hayasend.Model.Schemas.{parse_recipient, parse_attempt, parse_event}
use hayasend.Ledger.Status.{transition_recipient_status}
use hayasend.Ledger.Plans.{update_recipients, finish_plan}
use hayasend.Ledger.State.{
  or_else, DeliveryLedgerState, DeliveryLedgerPlan, ids, statuses, assert_ledger_state,
  update_message, update_email_for_recipients, latest_timestamp,
}

-- The outcomes with which a submission can complete.
pub data Outcome : Type 0 where
  accepted retryable_failed permanent_failed : Outcome

pub record AttemptCompletion : Type 0 where
  pub message_id : String
  pub attempt_id : String
  pub status : Outcome
  pub completed_at : String
  pub provider_message_id : Option String
  pub diagnostic_category : Option DiagnosticCategory
  pub public_error : Option String

-- Math.max(0, ...sequences)
unfoldable pub max_sequence : List DeliveryAttemptRecord → ℕ
max_sequence [] = 0
max_sequence (a ∷ rest) = let m = max_sequence rest in if leb a.sequence m then m else a.sequence

-- The condition under which `planAttemptStart` goes on.
unfoldable pub attempt_matches : DeliveryLedgerState → DeliveryAttemptRecord → Bool
attempt_matches st a =
    (a.message_id == st.message.id
      && a.provider == st.message.provider
      && a.status == AttemptStatus.submitting
      && not (is_some a.completed_at))
    && (nat_beq (length a.recipient_ids) (length st.message.recipient_ids)
        && all (includes a.recipient_ids) st.message.recipient_ids
        && not (any (λ x. x.id == a.id || nat_beq x.sequence a.sequence) st.attempts)
        && nat_beq a.sequence (max_sequence st.attempts + 1))

unfoldable pub attempt_status : Outcome → AttemptStatus
attempt_status Outcome.accepted = AttemptStatus.accepted
attempt_status Outcome.retryable_failed = AttemptStatus.retryable_failed
attempt_status Outcome.permanent_failed = AttemptStatus.permanent_failed

-- A text that is there and not empty.
abbrev pub truthy : Option String → Option String
truthy none = none
truthy (some s) = if s == "" then none else some s

unfoldable pub failure_status : Option DiagnosticCategory → RecipientStatus
failure_status category =
    if category == some provider_rejected || category == some invalid_data
    then RecipientStatus.rejected
    else RecipientStatus.failed

unfoldable pub completed_status : Outcome → Option DiagnosticCategory → RecipientStatus
completed_status Outcome.accepted category = RecipientStatus.accepted
completed_status Outcome.retryable_failed category = RecipientStatus.queued
completed_status Outcome.permanent_failed category = failure_status category

-- attempts[attemptIndex] = attempt, at the first attempt that passes the test.
unfoldable pub replace_first :
    (DeliveryAttemptRecord → Bool)
    → DeliveryAttemptRecord
    → List DeliveryAttemptRecord
    → List DeliveryAttemptRecord
replace_first test a [] = []
replace_first test a (x ∷ xs) =
    let rest = replace_first test a xs in if test x then a ∷ xs else x ∷ rest

-- The last changes of `planAttemptCompletion` to the email.
unfoldable pub completed_email : Outcome → Option String → EmailRecord → EmailRecord
completed_email Outcome.accepted none email = email
completed_email Outcome.accepted (some id) email = record email { provider_id = some id }
completed_email Outcome.retryable_failed id email = record email { last_event = "retrying" }
completed_email Outcome.permanent_failed id email = email

abbrev pub completion_error : Outcome → Option String → Option String
completion_error Outcome.accepted e = none
completion_error _ e = e

-- The attempt that a completion names.
unfoldable pub this_attempt : AttemptCompletion → DeliveryAttemptRecord → Bool
this_attempt c a = a.id == c.attempt_id && a.message_id == c.message_id

-- Owned by an attempt: named by it, and its latest.
unfoldable pub owned_by : DeliveryAttemptRecord → RecipientRecord → Bool
owned_by a r = includes a.recipient_ids r.id && r.latest_attempt_id == some a.id

-- A recipient that the attempt does not own as its latest submission.
unfoldable pub not_sending : DeliveryAttemptRecord → RecipientRecord → Bool
not_sending a r =
    not (r.status == RecipientStatus.sending) || not (r.latest_attempt_id == some a.id)

module _ (p : Platform) where
  unfoldable pub plan_attempt_start :
      DeliveryLedgerState
      → DeliveryAttemptRecord
      → Result (DeliveryLedgerPlan × DeliveryAttemptRecord)
  plan_attempt_start input input_attempt = do
    st ← assert_ledger_state p input
    a ← parse_attempt p input_attempt
    refuse_if (not (attempt_matches st a)) attempt_mismatch
    refuse_if (any (λ r. not (r.status == RecipientStatus.queued)) st.recipients) not_queued
    plan ←
        finish_plan p st (λ r. true)
          (λ r. record r {
            status = RecipientStatus.sending;
            latest_attempt_id = some a.id;
            updated_at = a.started_at;
          })
          a.started_at
          (λ email m rs. record email {
            status = EmailStatus.sending;
            last_event = "sending";
            updated_at = a.started_at;
          })
          (st.attempts ++ a ∷ [])
    ok (plan, a)

  unfoldable pub plan_attempt_completion :
      DeliveryLedgerState → AttemptCompletion → Result (DeliveryLedgerPlan × DeliveryAttemptRecord)
  plan_attempt_completion input c = do
    st ← assert_ledger_state p input
    current ← require (find (this_attempt c) st.attempts) attempt_not_active
    refuse_if (not (current.status == AttemptStatus.submitting)) attempt_not_active
    refuse_if
        (any (not_sending current)
          (filter_by (λ r. includes current.recipient_ids r.id) st.recipients))
        attempt_not_owner
    completed_at ← to_iso p c.completed_at
    a ← parse_attempt p (record current {
      status = attempt_status c.status;
      completed_at = some completed_at;
      provider_message_id = or_else (truthy c.provider_message_id) current.provider_message_id;
      diagnostic_category = or_else c.diagnostic_category current.diagnostic_category;
    })
    plan ←
        finish_plan p st (owned_by current)
          (λ r. record r {
            status = completed_status c.status c.diagnostic_category;
            updated_at = completed_at;
          })
          completed_at
          (λ email m rs. completed_email c.status (truthy c.provider_message_id) (
            update_email_for_recipients email m rs completed_at
              (completion_error c.status c.public_error)))
          (replace_first (this_attempt c) a st.attempts)
    ok (plan, a)
