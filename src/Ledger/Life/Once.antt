-- ===== src/Ledger/Life/Once.antt =====
-- Provider events, local states and edits keep the submissions exclusive; so does every history.
use hayasend.Base.{
  ◌≤◌, ◌≡◌, refl, sym, subst, Bool, true, false, not, ◌||◌, List, [], some, none, String, arith,
  find, find_sound, find-All, All, All-map, any, any-false, all, includes, ◌==◌, string_eq,
  option_eq,
}
use hayasend.Platform.{Platform}
use hayasend.Model.Status.{
  AttemptStatus, RecipientStatus, EventType, attempt_status_eq, recipient_status_eq,
}
use hayasend.Model.Records.{
  RecipientRecord, DeliveryAttemptRecord, ProviderEventRecord, provider_reference_eq,
}
use hayasend.Ledger.Status.{transition_recipient_status}
use hayasend.Ledger.Status.Table.{every, every_sound}
use hayasend.Ledger.State.{DeliveryLedgerState, DeliveryLedgerPlan, update_email_for_recipients}
use hayasend.Ledger.Invariant.{assert_ledger_state_sound}
use hayasend.Ledger.Plans.Laws.{finish_plan-eq-ok}
use hayasend.Ledger.Attempts.Laws.{plan_attempt_start-eq-ok, plan_attempt_completion-eq-ok}
use hayasend.Ledger.Events.{LocalStatus, moved_by, replaced_by, event_correlates}
use hayasend.Ledger.Events.Laws.{
  PlansEvent, PlansLocal, moved, replaced, plan_provider_event-eq-ok,
  plan_local_recipient_state-eq-ok,
}
use hayasend.Ledger.Life.Submissions.{live_count}
use hayasend.Ledger.Life.Exclusive.{
  SentBy, passed, IsExclusive, checked-IsExclusive, updated-All, All-clash, ledger_has_recipients,
}
use hayasend.Ledger.Life.Steps.{passed_sent, start-IsExclusive, completion-IsExclusive}
use hayasend.Ledger.Life.{Step, starts, completes, receives, sets, edits, Reach, begins, next}

abbrev passed_status : RecipientStatus → Bool
passed_status s = not (s == RecipientStatus.queued || s == RecipientStatus.sending)

passed_table :
    every (λ s e f. not (passed_status s) || passed_status (transition_recipient_status s e)) ≡ true
unfolding every transition_recipient_status
passed_table = refl

transition_passed :
    (s : RecipientStatus) (e : EventType)
    → passed_status s ≡ true
    → passed_status (transition_recipient_status s e) ≡ true
transition_passed s e h = ground (arith, every_sound _ passed_table s e e)

replaced-passed :
    (s : LocalStatus) (t : String) (r : RecipientRecord) → passed (replaced s t r) ≡ true
replaced-passed s t r = ground arith

correlates_accepted :
    (st : DeliveryLedgerState) (e : ProviderEventRecord) (a : DeliveryAttemptRecord)
    → event_correlates st e a ≡ true
    → (a.status == AttemptStatus.accepted) ≡ true
unfolding event_correlates
correlates_accepted st e a h = ground arith

not_submitting_of_any :
    (xs : List DeliveryAttemptRecord)
    → any (λ a. a.status == AttemptStatus.submitting) xs ≡ false
    → All (λ a. (a.status == AttemptStatus.submitting) ≡ false) xs
not_submitting_of_any xs h = any-false (λ a. a.status == AttemptStatus.submitting) xs h

module _ (p : Platform) where
  event-IsExclusive :
      {input : DeliveryLedgerState} {e : ProviderEventRecord} {plan : DeliveryLedgerPlan}
      → PlansEvent p input e plan
      → IsExclusive input
      → IsExclusive plan.state
  event-IsExclusive {input} {e} {plan} q x =
      let v = assert_ledger_state_sound p input q.checked in
      let x' = checked-IsExclusive p input q.checked x in
      let settled =
        find-All
          (λ a.
            (a.status == AttemptStatus.accepted) ≡ true
            → All (λ r. passed r ≡ true) q.st.recipients)
          (λ a. e.attempt_id == some a.id) q.st.attempts q.attempt x'.accepted q.found
          (correlates_accepted q.st e q.attempt q.correlates) in
      let (same, _, _) =
        finish_plan-eq-ok p (moved_by e) (moved e q.timestamp) q.st q.timestamp
          (λ email m rs. update_email_for_recipients email m rs q.timestamp none) q.st.attempts v
          q.finished in
      subst (λ (y : DeliveryLedgerPlan). IsExclusive y.state) (sym same)
        (record {
          covers = x'.covers;
          one = x'.one;
          submitting =
              All-map
                (λ a f s. absurd (
                  All-clash q.st.recipients (ledger_has_recipients p q.st v)
                    (λ r h k. passed_sent r.status h k.0) settled (f s)))
                q.st.attempts x'.submitting;
          accepted =
              All-map
                (λ a f s.
                  updated-All (moved_by e) (moved e q.timestamp)
                    (λ r h _. transition_passed r.status e.kind h) (λ r h _. h) q.st.recipients
                    settled)
                q.st.attempts x'.accepted;
        })

  local-IsExclusive :
      {input : DeliveryLedgerState} {s : LocalStatus} {plan : DeliveryLedgerPlan}
      → PlansLocal p input s plan
      → IsExclusive input
      → IsExclusive plan.state
  local-IsExclusive {input} {s} {plan} q x =
      let v = assert_ledger_state_sound p input q.checked in
      let x' = checked-IsExclusive p input q.checked x in
      let (same, _, _) =
        finish_plan-eq-ok p (replaced_by s) (replaced s q.timestamp) q.st q.timestamp
          (λ email m rs. update_email_for_recipients email m rs q.timestamp none) q.st.attempts v
          q.finished in
      subst (λ (y : DeliveryLedgerPlan). IsExclusive y.state) (sym same)
        (record {
          covers = x'.covers;
          one = x'.one;
          submitting =
              All-map (λ a n k. cc) q.st.attempts
                (not_submitting_of_any q.st.attempts q.not_submitting);
          accepted =
              All-map
                (λ a f k.
                  updated-All (replaced_by s) (replaced s q.timestamp)
                    (λ r _ _. replaced-passed s q.timestamp r) (λ r h _. h) q.st.recipients (f k))
                q.st.attempts x'.accepted;
        })

  Step-IsExclusive :
      {st st' : DeliveryLedgerState} → Step p st st' → IsExclusive st → IsExclusive st'
  Step-IsExclusive {st} (starts a h) x = start-IsExclusive p (plan_attempt_start-eq-ok p st a h).0 x
  Step-IsExclusive {st} (completes c h) x =
      completion-IsExclusive p (plan_attempt_completion-eq-ok p st c h) x
  Step-IsExclusive {st} (receives e h) x =
      event-IsExclusive (plan_provider_event-eq-ok p st e h).0 x
  Step-IsExclusive {st} (sets s t h) x =
      local-IsExclusive (plan_local_recipient_state-eq-ok p st s t h) x
  Step-IsExclusive {st} (edits email message same) x = record {
    covers =
        All-map (λ a h. subst (λ ids. all (includes a.recipient_ids) ids ≡ true) (sym same) h)
          st.attempts x.covers;
    one = x.one;
    submitting = x.submitting;
    accepted = x.accepted;
  }

  no_attempts-IsExclusive : (st : DeliveryLedgerState) → st.attempts ≡ [] → IsExclusive st
  no_attempts-IsExclusive st e = record {
    covers = rw e tt;
    one = rw e (omega arith);
    submitting = rw e tt;
    accepted = rw e tt;
  }

  pub Reach-IsExclusive : {st : DeliveryLedgerState} → Reach p st → IsExclusive st
  Reach-IsExclusive (begins st e) = no_attempts-IsExclusive st e
  Reach-IsExclusive (next r s) = Step-IsExclusive s (Reach-IsExclusive r)

-- From a ledger without attempts, whatever the order of starts, completions, provider events, local states and edits, a message
-- has at most one attempt that is under way or accepted: it is never submitted twice at once, and
-- never again once a provider has accepted it.
pub submitted_once :
    (p : Platform) (st : DeliveryLedgerState) → Reach p st → live_count st.attempts ≤ 1
submitted_once p st r = (Reach-IsExclusive p r).one

-- In a ledger reached from one without attempts: while an attempt is under way, every recipient is
-- being sent, and by that attempt.
pub active_attempt_owns_recipients :
    (p : Platform) (st : DeliveryLedgerState) (a : DeliveryAttemptRecord)
    → Reach p st
    → find (λ x. x.status == AttemptStatus.submitting) st.attempts ≡ some a
    → All (SentBy a) st.recipients
active_attempt_owns_recipients p st a r h =
    find-All _ (λ x. x.status == AttemptStatus.submitting) st.attempts a
      (Reach-IsExclusive p r).submitting h (find_sound _ st.attempts a h)

-- In a ledger reached from one without attempts: once an attempt is accepted, no recipient is queued or being sent.
pub accepted_attempt_settles_recipients :
    (p : Platform) (st : DeliveryLedgerState) (a : DeliveryAttemptRecord)
    → Reach p st
    → find (λ x. x.status == AttemptStatus.accepted) st.attempts ≡ some a
    → All (λ r. passed r ≡ true) st.recipients
accepted_attempt_settles_recipients p st a r h =
    find-All _ (λ x. x.status == AttemptStatus.accepted) st.attempts a
      (Reach-IsExclusive p r).accepted h (find_sound _ st.attempts a h)
