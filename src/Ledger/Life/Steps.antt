-- ===== src/Ledger/Life/Steps.antt =====
-- At most one attempt of a message is ever live, and once one is accepted no other begins.
use native.Mathlib.Nat.{le_trans}
use hayasend.Base.{
  ◌≤◌, ◌≡◌, refl, sym, subst, String, true, false, not, ◌||◌, List, [], ◌∷◌, ◌++◌, some, arith, ◌⊎◌,
  inl, inr, length, find-All, All, All-map, All-append, All-of, any-false, All-pair, all, includes,
  Bool-cases, ◌==◌, string_eq, option_eq, and_true, and_intro, any-false,
}
use hayasend.Platform.{Platform}
use hayasend.Model.Status.{AttemptStatus, RecipientStatus, attempt_status_eq, recipient_status_eq}
use hayasend.Model.Records.{RecipientRecord, DeliveryAttemptRecord}
use hayasend.Ledger.State.{ids, DeliveryLedgerState, DeliveryLedgerPlan}
use hayasend.Ledger.Invariant.{assert_ledger_state_sound}
use hayasend.Ledger.Plans.Laws.{finish_plan-eq-ok}
use hayasend.Ledger.Attempts.{
  AttemptCompletion, attempt_status, completed_status, owned_by, this_attempt, replace_first,
}
use hayasend.Ledger.Attempts.Laws.{
  PlansStart, PlansCompletion, started, sending_email, completed, completed_attempt,
  email_on_completion,
}
use hayasend.Ledger.Attempts.Keeps.{attempt_matches_parts, All-replace_first}
use hayasend.Ledger.Life.Submissions.{
  live, live_count_of_none, live_count-snoc, live_count-replace_first, others_not_live,
}
use hayasend.Ledger.Life.Exclusive.{
  SentBy, passed, IsExclusive, checked-IsExclusive, updated-All, All-clash, ledger_has_recipients,
}

abbrev Queued : RecipientRecord → Type 0
Queued r = not (r.status == RecipientStatus.queued) ≡ false

sent_queued :
    (s : RecipientStatus)
    → (s == RecipientStatus.sending) ≡ true
    → not (s == RecipientStatus.queued) ≡ false
    → ⊥
sent_queued s h k = ground arith

passed_queued :
    (s : RecipientStatus)
    → not (s == RecipientStatus.queued || s == RecipientStatus.sending) ≡ true
    → not (s == RecipientStatus.queued) ≡ false
    → ⊥
passed_queued s h k = ground arith

pub passed_sent :
    (s : RecipientStatus)
    → not (s == RecipientStatus.queued || s == RecipientStatus.sending) ≡ true
    → (s == RecipientStatus.sending) ≡ true
    → ⊥
passed_sent s h k = ground arith

not_both :
    (s : AttemptStatus)
    → (s == AttemptStatus.submitting) ≡ true
    → (s == AttemptStatus.accepted) ≡ true
    → ⊥
not_both s h k = ground arith

not_submitting :
    (s : AttemptStatus)
    → (s == AttemptStatus.submitting || s == AttemptStatus.accepted) ≡ false
    → (s == AttemptStatus.submitting) ≡ true
    → ⊥
not_submitting s h k = ground arith

not_accepted :
    (s : AttemptStatus)
    → (s == AttemptStatus.submitting || s == AttemptStatus.accepted) ≡ false
    → (s == AttemptStatus.accepted) ≡ true
    → ⊥
not_accepted s h k = ground arith

module _ (p : Platform) where
  -- With every recipient queued, no attempt is live.
  no_live_of_Queued :
      (st : DeliveryLedgerState)
      → 1 ≤ length st.recipients
      → IsExclusive st
      → All Queued st.recipients
      → All (λ a. live a ≡ false) st.attempts
  no_live_of_Queued st n x q =
      All-map dead st.attempts (All-pair _ _ st.attempts x.submitting x.accepted)
    where
      dead :
          (a : DeliveryAttemptRecord)
          → ((a.status == AttemptStatus.submitting) ≡ true → All (SentBy a) st.recipients)
            × ((a.status == AttemptStatus.accepted) ≡ true
                → All (λ r. passed r ≡ true) st.recipients)
          → live a ≡ false
      dead a (f, g) = elim (Bool-cases (live a)) [
        | inr e ↦ e
        | inl e ↦ elim (Bool-cases (a.status == AttemptStatus.submitting)) [
          | inl s ↦ absurd (All-clash st.recipients n (λ r h k. sent_queued r.status h.0 k) (f s) q)
          | inr s ↦
              absurd (
                All-clash st.recipients n (λ r h k. passed_queued r.status h k) (g (ground arith))
                  q)
        ]
      ]

  pub start-IsExclusive :
      {input : DeliveryLedgerState} {a : DeliveryAttemptRecord} {plan : DeliveryLedgerPlan}
      → PlansStart p input a plan
      → IsExclusive input
      → IsExclusive plan.state
  start-IsExclusive {input} {a} {plan} q x =
      let v = assert_ledger_state_sound p input q.checked in
      let x' = checked-IsExclusive p input q.checked x in
      let dead =
        no_live_of_Queued q.st (ledger_has_recipients p q.st v) x'
          (any-false (λ r. not (r.status == RecipientStatus.queued)) q.st.recipients q.queued) in
      let (_, _, submitting, _, covers, _, _) = attempt_matches_parts q.st a q.matches in
      let (same, _, _) =
        finish_plan-eq-ok p (λ r. true) (started a) q.st a.started_at (sending_email a)
          (q.st.attempts ++ a ∷ []) v q.finished in
      subst (λ (y : DeliveryLedgerPlan). IsExclusive y.state) (sym same)
        (record {
          covers = All-append _ q.st.attempts (a ∷ []) x'.covers (covers, tt);
          one =
              omega (arith, live_count-snoc q.st.attempts a, live_count_of_none q.st.attempts dead);
          submitting =
              All-append _ q.st.attempts (a ∷ [])
                (All-map (λ y d s. absurd (not_submitting y.status d s)) q.st.attempts dead)
                (
                  λ _.
                      updated-All (λ r. true) (started a) {P = λ _. Unit {0}}
                        (λ r _ _. (refl, refl)) (λ r _ e. cc) q.st.recipients
                        (All-of (λ _. tt) q.st.recipients),
                  tt,
                );
          accepted =
              All-append _ q.st.attempts (a ∷ [])
                (All-map (λ y d s. absurd (not_accepted y.status d s)) q.st.attempts dead)
                (λ s. absurd (not_both a.status submitting s), tt);
        })

-- The status of a recipient once its submission has been accepted.
completed-passed :
    (c : AttemptCompletion) (t : String) (r : RecipientRecord) (a : DeliveryAttemptRecord)
    → ((completed_attempt c t a).status == AttemptStatus.accepted) ≡ true
    → passed (completed c t r) ≡ true
unfolding attempt_status completed_status
completed-passed c t r a h = ground arith

completed_not_submitting :
    (c : AttemptCompletion) (t : String) (a : DeliveryAttemptRecord)
    → ((completed_attempt c t a).status == AttemptStatus.submitting) ≡ true
    → ⊥
unfolding attempt_status
completed_not_submitting c t a h = ground arith

all-ids :
    (known : List String) (rs : List RecipientRecord)
    → all (includes known) (ids rs) ≡ true
    → All (λ r. includes known r.id ≡ true) rs
all-ids known [] h = tt
all-ids known (r ∷ rs) h =
    let (here, rest) = and_true (includes known r.id) _ h in (here, all-ids known rs rest)

owned_true :
    (a : DeliveryAttemptRecord) (r : RecipientRecord)
    → SentBy a r
    → includes a.recipient_ids r.id ≡ true
    → owned_by a r ≡ true
unfolding owned_by
owned_true a r s h = and_intro h ((option_eq.beq_iff r.latest_attempt_id (some a.id)).1 s.1)

live_of_submitting :
    (a : DeliveryAttemptRecord) → (a.status == AttemptStatus.submitting) ≡ true → live a ≡ true
live_of_submitting a h = ground arith

not_owned :
    (a : DeliveryAttemptRecord) (r : RecipientRecord)
    → SentBy a r × (includes a.recipient_ids r.id ≡ true)
    → owned_by a r ≡ false
    → ⊥
not_owned a r h e = cc (owned_true a r h.0 h.1)

module _ (c : AttemptCompletion) (t : String) (current a : DeliveryAttemptRecord)
    (other : (live a ≡ false) ⊎ (a ≡ completed_attempt c t current)) where
  still_submitting : (a.status == AttemptStatus.submitting) ≡ true → ⊥
  still_submitting s = elim other [
    | inl dead ↦ not_submitting a.status dead s
    | inr e ↦
        completed_not_submitting c t current
          (subst (λ (y : DeliveryAttemptRecord). (y.status == AttemptStatus.submitting) ≡ true) e s)
  ]

  now_accepted :
      (a.status == AttemptStatus.accepted) ≡ true
      → ((completed_attempt c t current).status == AttemptStatus.accepted) ≡ true
  now_accepted s = elim other [
    | inl dead ↦ absurd (not_accepted a.status dead s)
    | inr e ↦ subst (λ (y : DeliveryAttemptRecord). (y.status == AttemptStatus.accepted) ≡ true) e s
  ]

module _ (p : Platform) where
  pub completion-IsExclusive :
      {input : DeliveryLedgerState} {c : AttemptCompletion} {plan : DeliveryLedgerPlan}
      → PlansCompletion p input c plan
      → IsExclusive input
      → IsExclusive plan.state
  completion-IsExclusive {input} {c} {plan} q x =
      let v = assert_ledger_state_sound p input q.checked in
      let x' = checked-IsExclusive p input q.checked x in
      let sent =
        find-All
          (λ a. (a.status == AttemptStatus.submitting) ≡ true → All (SentBy a) q.st.recipients)
          (this_attempt c) q.st.attempts q.current x'.submitting q.found q.submitting in
      let covers =
        find-All (λ a. all (includes a.recipient_ids) q.st.message.recipient_ids ≡ true)
          (this_attempt c) q.st.attempts q.current x'.covers q.found in
      let was_live : live q.current ≡ true = live_of_submitting q.current q.submitting in
      let new = completed_attempt c q.completed_at q.current in
      let others =
        others_not_live (this_attempt c) new q.current was_live q.st.attempts x'.one q.found in
      let both =
        All-pair (SentBy q.current) (λ r. includes q.current.recipient_ids r.id ≡ true)
          q.st.recipients sent
          (all-ids q.current.recipient_ids q.st.recipients (rw v.ordered covers)) in
      let (same, _, _) =
        finish_plan-eq-ok p (owned_by q.current) (completed c q.completed_at) q.st q.completed_at
          (email_on_completion c q.completed_at) (replace_first (this_attempt c) new q.st.attempts)
          v q.finished in
      subst (λ (y : DeliveryLedgerPlan). IsExclusive y.state) (sym same)
        (record {
          covers = All-replace_first (this_attempt c) _ new q.st.attempts covers x'.covers;
          one =
              le_trans
                (live_count-replace_first (this_attempt c) new q.current was_live q.st.attempts
                  q.found)
                x'.one;
          submitting =
              All-map (λ a o s. absurd (still_submitting c q.completed_at q.current a o s))
                (replace_first (this_attempt c) new q.st.attempts) others;
          accepted =
              All-map
                (λ a o s.
                  updated-All (owned_by q.current) (completed c q.completed_at)
                    (λ r _ _.
                      completed-passed c q.completed_at r q.current
                        (now_accepted c q.completed_at q.current a o s))
                    (λ r h e. absurd (not_owned q.current r h e)) q.st.recipients both)
                (replace_first (this_attempt c) new q.st.attempts) others;
        })
