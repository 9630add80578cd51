-- ===== src/Ledger/Events/Laws.antt =====
-- The guards that a provider event or a local state has passed, and that the ledger stays one.
use hayasend.Base.{
  ◌≡◌, refl, sym, ap, subst, ◌∙◌, String, true, false, not, ◌||◌, [], ◌∷◌, none, some, ok,
  >>=-eq-ok, refuse_if-eq-ok, require, require-eq-ok, not-false, ok_inj, find, any, ◌==◌, string_eq,
  option_eq, event_not_correlated, submission_active, or_false,
}
use hayasend.Platform.{Platform, to_iso}
use hayasend.Model.Status.{AttemptStatus, RecipientStatus, attempt_status_eq, recipient_status_eq}
use hayasend.Model.Records.{RecipientRecord, DeliveryAttemptRecord, ProviderEventRecord}
use hayasend.Model.Schemas.{parse_event, event_valid}
use hayasend.Model.Schemas.Laws.{parse_event-eq-ok}
use hayasend.Ledger.Status.{transition_recipient_status}
use hayasend.Ledger.State.{
  DeliveryLedgerState, DeliveryLedgerPlan, assert_ledger_state, latest_timestamp,
  update_email_for_recipients,
}
use hayasend.Ledger.Invariant.{IsLedger, assert_ledger_state_sound}
use hayasend.Ledger.Plans.{finish_plan}
use hayasend.Ledger.Plans.Keeps.{finish_plan-IsLedger, IsLedger-AreAttempts}
use hayasend.Ledger.Events.{
  LocalStatus, recipient_status, event_correlates, moved_by, replaced_by, plan_provider_event,
  plan_local_recipient_state,
}

abbrev pub moved : ProviderEventRecord → String → RecipientRecord → RecipientRecord
moved e timestamp r = record r {
  status = transition_recipient_status r.status e.kind;
  updated_at = timestamp;
}

abbrev pub replaced : LocalStatus → String → RecipientRecord → RecipientRecord
replaced s timestamp r = record r { status = recipient_status s; updated_at = timestamp }

-- A provider event that is planned: the ledger, the accepted attempt and the time of the change.
pub record PlansEvent (p : Platform) (input : DeliveryLedgerState) (e : ProviderEventRecord)
    (plan : DeliveryLedgerPlan) : Type 0 where
  pub st : DeliveryLedgerState
  pub attempt : DeliveryAttemptRecord
  pub timestamp : String
  pub checked : assert_ledger_state p input ≡ ok st
  pub valid : event_valid p e ≡ true
  pub found : find (λ a. e.attempt_id == some a.id) st.attempts ≡ some attempt
  pub correlates : event_correlates st e attempt ≡ true
  pub at :
      latest_timestamp p (st.email.updated_at ∷ st.message.updated_at ∷ e.received_at ∷ [])
      ≡ ok timestamp
  pub finished :
      finish_plan p st
        (moved_by e)
        (moved e timestamp)
        timestamp
        (λ email m rs. update_email_for_recipients email m rs timestamp none)
        st.attempts
      ≡ ok plan

pub record PlansLocal (p : Platform) (input : DeliveryLedgerState) (s : LocalStatus)
    (plan : DeliveryLedgerPlan) : Type 0 where
  pub st : DeliveryLedgerState
  pub timestamp : String
  pub checked : assert_ledger_state p input ≡ ok st
  pub not_submitting : any (λ a. a.status == AttemptStatus.submitting) st.attempts ≡ false
  pub not_sending : any (λ r. r.status == RecipientStatus.sending) st.recipients ≡ false
  pub finished :
      finish_plan p st
        (replaced_by s)
        (replaced s timestamp)
        timestamp
        (λ email m rs. update_email_for_recipients email m rs timestamp none)
        st.attempts
      ≡ ok plan

module _ (p : Platform) where
  pub plan_provider_event-eq-ok :
      (input : DeliveryLedgerState) (e : ProviderEventRecord) {plan : DeliveryLedgerPlan}
      {e' : ProviderEventRecord}
      → plan_provider_event p input e ≡ ok (plan, e')
      → PlansEvent p input e plan × (e ≡ e')
  unfolding plan_provider_event
  plan_provider_event-eq-ok input e {plan} h =
      let (st, checked, h1) = >>=-eq-ok (assert_ledger_state p input) _ h in
      let (x, parsed, h2) = >>=-eq-ok (parse_event p e) _ h1 in
      let (valid, same) = parse_event-eq-ok p e parsed in
      let (a, found, h3) =
        >>=-eq-ok (require (find (λ a. x.attempt_id == some a.id) st.attempts) event_not_correlated)
          _ h2 in
      let (guarded, h4) =
        refuse_if-eq-ok (not (event_correlates st x a)) event_not_correlated _ h3 in
      let (t, at, h5) =
        >>=-eq-ok
          (latest_timestamp p (st.email.updated_at ∷ st.message.updated_at ∷ x.received_at ∷ [])) _
          h4 in
      let (q, finished, h6) =
        >>=-eq-ok
          (finish_plan p st (moved_by x) (moved x t) t
            (λ email m rs. update_email_for_recipients email m rs t none) st.attempts)
          _ h5 in
      (
        subst (λ y. PlansEvent p input y plan) (sym same)
            (record {
              st = st;
              attempt = a;
              timestamp = t;
              checked = checked;
              valid = subst (λ y. event_valid p y ≡ true) same valid;
              found = require-eq-ok _ event_not_correlated found;
              correlates = not-false _ guarded;
              at = at;
              finished =
                  finished
                  ∙ ap ok (ap (λ (y : DeliveryLedgerPlan × ProviderEventRecord). y.0) (ok_inj h6));
            }),
        same ∙ ap (λ (y : DeliveryLedgerPlan × ProviderEventRecord). y.1) (ok_inj h6),
      )

  pub plan_local_recipient_state-eq-ok :
      (input : DeliveryLedgerState) (s : LocalStatus) (updated_at : String)
      {plan : DeliveryLedgerPlan}
      → plan_local_recipient_state p input s updated_at ≡ ok plan
      → PlansLocal p input s plan
  unfolding plan_local_recipient_state
  plan_local_recipient_state-eq-ok input s updated_at h =
      let (st, checked, h1) = >>=-eq-ok (assert_ledger_state p input) _ h in
      let (idle, h2) =
        refuse_if-eq-ok
          (any (λ a. a.status == AttemptStatus.submitting) st.attempts
            || any (λ r. r.status == RecipientStatus.sending) st.recipients)
          submission_active _ h1 in
      let (none_submitting, none_sending) = or_false _ _ idle in
      let (now, _, h3) = >>=-eq-ok (to_iso p updated_at) _ h2 in
      let (t, _, h4) =
        >>=-eq-ok (latest_timestamp p (st.email.updated_at ∷ st.message.updated_at ∷ now ∷ [])) _
          h3 in
      record {
        st = st;
        timestamp = t;
        checked = checked;
        not_submitting = none_submitting;
        not_sending = none_sending;
        finished = h4;
      }

  pub PlansEvent-IsLedger :
      {input : DeliveryLedgerState} {e : ProviderEventRecord} {plan : DeliveryLedgerPlan}
      → PlansEvent p input e plan
      → IsLedger p plan.state
  unfolding update_email_for_recipients
  PlansEvent-IsLedger {input} {e} q =
      let v = assert_ledger_state_sound p input q.checked in
      finish_plan-IsLedger (moved_by e) (moved e q.timestamp) (λ r. refl) (λ r. refl) p q.st
        q.timestamp _ (λ email m rs. refl) q.st.attempts v (IsLedger-AreAttempts p q.st v)
        q.finished

  pub PlansLocal-IsLedger :
      {input : DeliveryLedgerState} {s : LocalStatus} {plan : DeliveryLedgerPlan}
      → PlansLocal p input s plan
      → IsLedger p plan.state
  unfolding update_email_for_recipients
  PlansLocal-IsLedger {input} {s} q =
      let v = assert_ledger_state_sound p input q.checked in
      finish_plan-IsLedger (replaced_by s) (replaced s q.timestamp) (λ r. refl) (λ r. refl) p q.st
        q.timestamp _ (λ email m rs. refl) q.st.attempts v (IsLedger-AreAttempts p q.st v)
        q.finished
