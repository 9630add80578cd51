-- ===== src/Ledger/Attempts/Laws.antt =====
-- The guards that the start and the completion of an attempt have passed.
use hayasend.Base.{
  ◌≡◌, sym, ap, subst, ◌∙◌, String, true, false, not, List, [], ◌∷◌, ◌++◌, some, ok, >>=-eq-ok,
  refuse_if-eq-ok, require, require-eq-ok, not-false, ok_inj, find, any, filter_by, includes, ◌==◌,
  string_eq, option_eq, attempt_mismatch, not_queued, attempt_not_active, attempt_not_owner,
}
use hayasend.Platform.{Platform, to_iso}
use hayasend.Model.Status.{
  EmailStatus, AttemptStatus, RecipientStatus, attempt_status_eq, recipient_status_eq,
}
use hayasend.Model.Records.{
  EmailRecord, DeliveryMessageRecord, RecipientRecord, DeliveryAttemptRecord,
}
use hayasend.Model.Schemas.{parse_attempt, attempt_valid}
use hayasend.Model.Schemas.Laws.{parse_attempt-eq-ok}
use hayasend.Ledger.State.{
  DeliveryLedgerState, DeliveryLedgerPlan, or_else, assert_ledger_state,
  update_email_for_recipients,
}
use hayasend.Ledger.Plans.{finish_plan}
use hayasend.Ledger.Attempts.{
  AttemptCompletion, attempt_matches, attempt_status, truthy, completed_status, replace_first,
  completed_email, completion_error, this_attempt, owned_by, not_sending, plan_attempt_start,
  plan_attempt_completion,
}

-- A recipient that the start of an attempt takes over.
abbrev pub started : DeliveryAttemptRecord → RecipientRecord → RecipientRecord
started a r = record r {
  status = RecipientStatus.sending;
  latest_attempt_id = some a.id;
  updated_at = a.started_at;
}

abbrev pub sending_email :
    DeliveryAttemptRecord → EmailRecord → DeliveryMessageRecord → List RecipientRecord → EmailRecord
sending_email a email m rs = record email {
  status = EmailStatus.sending;
  last_event = "sending";
  updated_at = a.started_at;
}

abbrev pub completed : AttemptCompletion → String → RecipientRecord → RecipientRecord
completed c completed_at r = record r {
  status = completed_status c.status c.diagnostic_category;
  updated_at = completed_at;
}

abbrev pub completed_attempt :
    AttemptCompletion → String → DeliveryAttemptRecord → DeliveryAttemptRecord
completed_attempt c completed_at a = record a {
  status = attempt_status c.status;
  completed_at = some completed_at;
  provider_message_id = or_else (truthy c.provider_message_id) a.provider_message_id;
  diagnostic_category = or_else c.diagnostic_category a.diagnostic_category;
}

abbrev pub email_on_completion :
    AttemptCompletion
    → String
    → EmailRecord
    → DeliveryMessageRecord
    → List RecipientRecord
    → EmailRecord
email_on_completion c completed_at email m rs =
    completed_email c.status (truthy c.provider_message_id) (
      update_email_for_recipients email m rs completed_at
        (completion_error c.status c.public_error))

pub record PlansStart (p : Platform) (input : DeliveryLedgerState) (a : DeliveryAttemptRecord)
    (plan : DeliveryLedgerPlan) : Type 0 where
  pub st : DeliveryLedgerState
  pub checked : assert_ledger_state p input ≡ ok st
  pub valid : attempt_valid p a ≡ true
  pub matches : attempt_matches st a ≡ true
  pub queued : any (λ r. not (r.status == RecipientStatus.queued)) st.recipients ≡ false
  pub finished :
      finish_plan p st
        (λ r. true)
        (started a)
        a.started_at
        (sending_email a)
        (st.attempts ++ a ∷ [])
      ≡ ok plan

pub record PlansCompletion (p : Platform) (input : DeliveryLedgerState) (c : AttemptCompletion)
    (plan : DeliveryLedgerPlan) : Type 0 where
  pub st : DeliveryLedgerState
  pub current : DeliveryAttemptRecord
  pub completed_at : String
  pub checked : assert_ledger_state p input ≡ ok st
  pub found : find (this_attempt c) st.attempts ≡ some current
  pub submitting : (current.status == AttemptStatus.submitting) ≡ true
  pub owned :
      any (not_sending current) (filter_by (λ r. includes current.recipient_ids r.id) st.recipients)
      ≡ false
  pub valid : attempt_valid p (completed_attempt c completed_at current) ≡ true
  pub finished :
      finish_plan p st
        (owned_by current)
        (completed c completed_at)
        completed_at
        (email_on_completion c completed_at)
        (replace_first (this_attempt c) (completed_attempt c completed_at current) st.attempts)
      ≡ ok plan

module _ (p : Platform) where
  pub plan_attempt_start-eq-ok :
      (input : DeliveryLedgerState) (a : DeliveryAttemptRecord) {plan : DeliveryLedgerPlan}
      {a' : DeliveryAttemptRecord}
      → plan_attempt_start p input a ≡ ok (plan, a')
      → PlansStart p input a plan × (a ≡ a')
  unfolding plan_attempt_start
  plan_attempt_start-eq-ok input a {plan} h =
      let (st, checked, h1) = >>=-eq-ok (assert_ledger_state p input) _ h in
      let (x, parsed, h2) = >>=-eq-ok (parse_attempt p a) _ h1 in
      let (valid, same) = parse_attempt-eq-ok p a parsed in
      let (guarded, h3) = refuse_if-eq-ok (not (attempt_matches st x)) attempt_mismatch _ h2 in
      let (queued, h4) =
        refuse_if-eq-ok (any (λ r. not (r.status == RecipientStatus.queued)) st.recipients)
          not_queued _ h3 in
      let (q, finished, h5) =
        >>=-eq-ok
          (finish_plan p st (λ r. true) (started x) x.started_at (sending_email x)
            (st.attempts ++ x ∷ []))
          _ h4 in
      (
        subst (λ y. PlansStart p input y plan) (sym same)
            (record {
              st = st;
              checked = checked;
              valid = subst (λ y. attempt_valid p y ≡ true) same valid;
              matches = not-false _ guarded;
              queued = queued;
              finished =
                  finished
                  ∙ ap ok
                      (ap (λ (y : DeliveryLedgerPlan × DeliveryAttemptRecord). y.0) (ok_inj h5));
            }),
        same ∙ ap (λ (y : DeliveryLedgerPlan × DeliveryAttemptRecord). y.1) (ok_inj h5),
      )

  pub plan_attempt_completion-eq-ok :
      (input : DeliveryLedgerState) (c : AttemptCompletion) {plan : DeliveryLedgerPlan}
      {a' : DeliveryAttemptRecord}
      → plan_attempt_completion p input c ≡ ok (plan, a')
      → PlansCompletion p input c plan
  unfolding plan_attempt_completion
  plan_attempt_completion-eq-ok input c {plan} h =
      let (st, checked, h1) = >>=-eq-ok (assert_ledger_state p input) _ h in
      let (current, found, h2) =
        >>=-eq-ok (require (find (this_attempt c) st.attempts) attempt_not_active) _ h1 in
      let (active, h3) =
        refuse_if-eq-ok (not (current.status == AttemptStatus.submitting)) attempt_not_active _
          h2 in
      let (owned, h4) =
        refuse_if-eq-ok
          (any (not_sending current)
            (filter_by (λ r. includes current.recipient_ids r.id) st.recipients))
          attempt_not_owner _ h3 in
      let (t, _, h5) = >>=-eq-ok (to_iso p c.completed_at) _ h4 in
      let (a, parsed, h6) = >>=-eq-ok (parse_attempt p (completed_attempt c t current)) _ h5 in
      let (valid, same) = parse_attempt-eq-ok p (completed_attempt c t current) parsed in
      let (q, finished, h7) =
        >>=-eq-ok
          (finish_plan p st (owned_by current) (completed c t) t (email_on_completion c t)
            (replace_first (this_attempt c) a st.attempts))
          _ h6 in
      record {
        st = st;
        current = current;
        completed_at = t;
        checked = checked;
        found = require-eq-ok _ attempt_not_active found;
        submitting = not-false _ active;
        owned = owned;
        valid = valid;
        finished =
            ap
              (λ x.
                finish_plan p st (owned_by current) (completed c t) t (email_on_completion c t)
                  (replace_first (this_attempt c) x st.attempts))
              same
            ∙ finished
            ∙ ap ok (ap (λ (y : DeliveryLedgerPlan × DeliveryAttemptRecord). y.0) (ok_inj h7));
      }
