-- ===== src/Ledger/Attempts/Keeps.antt =====
-- The attempts stay those of one ledger: a new one fits it, a completed one keeps its identity.
use mathlib.Core.List.{map-append}
use hayasend.Base.{
  ◌+◌, ◌≡◌, refl, sym, ap, ◌∙◌, String, Bool, true, false, ◌||◌, List, [], ◌∷◌, ◌++◌, map, some,
  arith, All, All-append, any, all, includes, unique, unique-snoc, includes-map-false, find,
  find-All, length, nat_beq, ◌==◌, string_eq, nat_eq, and_true, and_intro, Bool-cases, inl, inr,
  beq→eq, all-includes_self, all-includes-pigeonhole,
}
use hayasend.Platform.{Platform}
use hayasend.Model.Status.{AttemptStatus, attempt_status_eq}
use hayasend.Model.Records.{
  EmailRecord, RecipientRecord, DeliveryMessageRecord, DeliveryAttemptRecord, provider_reference_eq,
}
use hayasend.Model.Schemas.{attempt_valid, attempt_format}
use hayasend.Ledger.State.{
  DeliveryLedgerState, DeliveryLedgerPlan, attempt_fits, update_email_for_recipients,
}
use hayasend.Ledger.Invariant.{IsLedger, assert_ledger_state_sound, message_valid-unique}
use hayasend.Ledger.Plans.Keeps.{AreAttempts, finish_plan-IsLedger}
use hayasend.Ledger.Attempts.{
  AttemptCompletion, max_sequence, attempt_matches, replace_first, this_attempt, completed_email,
  owned_by,
}
use hayasend.Ledger.Attempts.Laws.{
  PlansStart, PlansCompletion, started, sending_email, completed, completed_attempt,
  email_on_completion,
}

-- What `planAttemptStart` tests, part by part.
pub attempt_matches_parts :
    (st : DeliveryLedgerState) (a : DeliveryAttemptRecord)
    → attempt_matches st a ≡ true
    → ((a.message_id == st.message.id) ≡ true)
      × ((a.provider == st.message.provider) ≡ true)
      × ((a.status == AttemptStatus.submitting) ≡ true)
      × ((length a.recipient_ids == length st.message.recipient_ids) ≡ true)
      × (all (includes a.recipient_ids) st.message.recipient_ids ≡ true)
      × (any (λ x. x.id == a.id || nat_beq x.sequence a.sequence) st.attempts ≡ false)
      × ((a.sequence == max_sequence st.attempts + 1) ≡ true)
unfolding attempt_matches
attempt_matches_parts st a h = ground arith

any_left :
    {A : Type 0} (q r : A → Bool) (xs : List A)
    → any (λ x. q x || r x) xs ≡ false
    → (any q xs ≡ false) × (any r xs ≡ false)
any_left q r [] h = (refl, refl)
any_left q r (x ∷ xs) h = ground (arith, any_left q r xs)

module _ (p : Platform) where
  attempt_valid-unique :
      (a : DeliveryAttemptRecord) → attempt_valid p a ≡ true → unique a.recipient_ids ≡ true
  unfolding attempt_valid
  attempt_valid-unique a h = (and_true _ _ (and_true (attempt_format p a) _ h).1).0

  start-fits :
      (st : DeliveryLedgerState) (a : DeliveryAttemptRecord)
      → IsLedger p st
      → attempt_matches st a ≡ true
      → attempt_fits st.message st.message.recipient_ids a ≡ true
  unfolding attempt_fits
  start-fits st a v h =
      let (id, provider, _, count, covers, _, _) = attempt_matches_parts st a h in
      and_intro id (
        and_intro provider (
          all-includes-pigeonhole st.message.recipient_ids a.recipient_ids a.recipient_ids
            (message_valid-unique p st.message v.message_ok) covers
            (omega (arith, beq→eq (length a.recipient_ids) (length st.message.recipient_ids) count))
            (all-includes_self a.recipient_ids)))

  pub start-AreAttempts :
      (st : DeliveryLedgerState) (a : DeliveryAttemptRecord)
      → IsLedger p st
      → attempt_valid p a ≡ true
      → attempt_matches st a ≡ true
      → AreAttempts p st.message (st.attempts ++ a ∷ [])
  start-AreAttempts st a v valid h =
      let (_, _, _, _, _, fresh, _) = attempt_matches_parts st a h in
      let (new_id, new_sequence) =
        any_left (λ x. x.id == a.id) (λ x. nat_beq x.sequence a.sequence) st.attempts fresh in
      record {
        attempts_ok = All-append _ st.attempts (a ∷ []) v.attempts_ok (valid, tt);
        attempt_ids = rw map-append (
            unique-snoc (map (λ x. x.id) st.attempts) a.id
              (includes-map-false (λ x. x.id) a.id st.attempts new_id) v.attempt_ids);
        sequences = rw map-append (
            unique-snoc (map (λ x. x.sequence) st.attempts) a.sequence
              (includes-map-false (λ x. x.sequence) a.sequence st.attempts new_sequence)
              v.sequences);
        fit = All-append _ st.attempts (a ∷ []) v.fit (start-fits st a v h, tt);
      }

  -- A new attempt leaves a ledger.
  pub PlansStart-IsLedger :
      {input : DeliveryLedgerState} {a : DeliveryAttemptRecord} {plan : DeliveryLedgerPlan}
      → PlansStart p input a plan
      → IsLedger p plan.state
  PlansStart-IsLedger {input} {a} q =
      let v = assert_ledger_state_sound p input q.checked in
      finish_plan-IsLedger (λ r. true) (started a) (λ r. refl) (λ r. refl) p q.st a.started_at
        (sending_email a) (λ email m rs. refl) (q.st.attempts ++ a ∷ []) v
        (start-AreAttempts q.st a v q.valid q.matches) q.finished

module _ (test : DeliveryAttemptRecord → Bool) where
  pub map-replace_first {ℓ} :
      {B : Type ℓ} (k : DeliveryAttemptRecord → B) (a current : DeliveryAttemptRecord)
      (xs : List DeliveryAttemptRecord)
      → find test xs ≡ some current
      → k a ≡ k current
      → map k (replace_first test a xs) ≡ map k xs
  unfolding replace_first
  map-replace_first k a current [] h e = refl
  map-replace_first k a current (x ∷ xs) h e = elim (Bool-cases (test x)) [
    | inl t ↦
        let same : x ≡ current = ground arith in rw t (ap (λ y. y ∷ map k xs) (e ∙ ap k (sym same)))
    | inr f ↦ rw f (ap (◌∷◌ (k x)) (map-replace_first k a current xs (rw f at h) e))
  ]

  pub All-replace_first {κ} :
      (P : DeliveryAttemptRecord → Type κ) (a : DeliveryAttemptRecord)
      (xs : List DeliveryAttemptRecord)
      → P a
      → All P xs
      → All P (replace_first test a xs)
  unfolding replace_first
  All-replace_first P a [] pa h = tt
  All-replace_first P a (x ∷ xs) pa h = elim (Bool-cases (test x)) [
    | inl t ↦ rw t (pa, h.1)
    | inr f ↦ rw f (h.0, All-replace_first P a xs pa h.1)
  ]

completed_email-id :
    (c : AttemptCompletion) (t : String) (email : EmailRecord) (m : DeliveryMessageRecord)
    (rs : List RecipientRecord)
    → (email_on_completion c t email m rs).id ≡ email.id
unfolding completed_email update_email_for_recipients
completed_email-id c t email m rs = ground arith

attempt_fits-completed :
    (m : DeliveryMessageRecord) (known : List String) (c : AttemptCompletion) (t : String)
    (a : DeliveryAttemptRecord)
    → attempt_fits m known a ≡ true
    → attempt_fits m known (completed_attempt c t a) ≡ true
unfolding attempt_fits
attempt_fits-completed m known c t a h = h

-- So does a completed one.
pub PlansCompletion-IsLedger :
    (p : Platform) {input : DeliveryLedgerState} {c : AttemptCompletion} {plan : DeliveryLedgerPlan}
    → PlansCompletion p input c plan
    → IsLedger p plan.state
PlansCompletion-IsLedger p {input} {c} q =
    let v = assert_ledger_state_sound p input q.checked in
    let a = completed_attempt c q.completed_at q.current in
    finish_plan-IsLedger (owned_by q.current) (completed c q.completed_at) (λ r. refl) (λ r. refl) p
      q.st q.completed_at (email_on_completion c q.completed_at)
      (completed_email-id c q.completed_at) (replace_first (this_attempt c) a q.st.attempts) v
      (record {
        attempts_ok = All-replace_first (this_attempt c) _ a q.st.attempts q.valid v.attempts_ok;
        attempt_ids =
            rw
              (map-replace_first (this_attempt c) (λ x. x.id) a q.current q.st.attempts q.found
                refl)
              v.attempt_ids;
        sequences =
            rw
              (map-replace_first (this_attempt c) (λ x. x.sequence) a q.current q.st.attempts
                q.found refl)
              v.sequences;
        fit =
            All-replace_first (this_attempt c) _ a q.st.attempts
              (attempt_fits-completed q.st.message q.st.message.recipient_ids c q.completed_at
                q.current (find-All _ (this_attempt c) q.st.attempts q.current v.fit q.found))
              v.fit;
      })
      q.finished
