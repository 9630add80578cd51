-- ===== src/Store/Ledgers/Whole.antt =====
-- Every operation on a ledger in the store writes a whole ledger, or nothing.
use hayasend.Base.{
  ◌≡◌, refl, String, Bool, true, false, Option, none, some, ok, ◌⊎◌, inl, inr, require, find, ◌==◌,
  string_eq, attempt_missing,
}
use hayasend.Base.Assoc.{get}
use hayasend.Platform.{Platform}
use hayasend.Model.Records.{DeliveryAttemptRecord, ProviderEventRecord}
use hayasend.Model.Schemas.{parse_attempt, parse_event}
use hayasend.Ledger.State.{DeliveryLedgerPlan}
use hayasend.Ledger.Invariant.{IsLedger}
use hayasend.Ledger.Attempts.{AttemptCompletion, plan_attempt_start, plan_attempt_completion}
use hayasend.Ledger.Events.{LocalStatus, plan_provider_event, plan_local_recipient_state}
use hayasend.Ledger.Sound.{
  plan_attempt_start-IsLedger, plan_attempt_completion-IsLedger, plan_provider_event-IsLedger,
  plan_local_recipient_state-IsLedger,
}
use hayasend.Store.Ledgers.Writes.{Written, commit_ledger_plan-Written}
use hayasend.Store.State.{MemoryStore, Hook, and_then-either, if_found-either}
use hayasend.Store.Snapshots.{DeliveryLedgerSnapshot, delivery_ledger, commit_ledger_plan}
use hayasend.Store.Ledgers.{
  commit_and_read, begin_attempt, begin_delivery_attempt, complete_attempt,
  complete_delivery_attempt, append_event, append_provider_event, apply_local_delivery_state,
}

module _ (p : Platform) (hook : Hook) (s : MemoryStore) where
  -- The store as it was, or as the write leaves it.
  abbrev pub Unless : (MemoryStore → Type 0) → MemoryStore → Type 0
  Unless P t = (t ≡ s) ⊎ P t

  -- The store with what a plan of an operation has for a valid ledger.
  abbrev Holds :
      DeliveryLedgerPlan
      → Option DeliveryAttemptRecord
      → Option ProviderEventRecord
      → MemoryStore
      → Type 0
  Holds plan attempt event t = IsLedger p plan.state × Written plan attempt event s t

  -- What the stored ledger and the attempt plan is written, with the attempt.
  abbrev pub Begun : DeliveryAttemptRecord → MemoryStore → Type 0
  Begun input t =
      (a : DeliveryAttemptRecord) × (ledger : DeliveryLedgerSnapshot)
      × (planned : DeliveryLedgerPlan × DeliveryAttemptRecord) × (parse_attempt p input ≡ ok a)
      × (delivery_ledger p a.message_id s ≡ some ledger)
      × (plan_attempt_start p ledger.state a ≡ ok planned)
      × Holds planned.0 (some a) none t

  -- What the stored ledger and the completion plan is written, with the completed attempt.
  abbrev pub Completed : AttemptCompletion → MemoryStore → Type 0
  Completed c t =
      (ledger : DeliveryLedgerSnapshot) × (planned : DeliveryLedgerPlan × DeliveryAttemptRecord)
      × (delivery_ledger p c.message_id s ≡ some ledger)
      × (plan_attempt_completion p ledger.state c ≡ ok planned)
      × Holds planned.0 (some planned.1) none t

  -- What the stored ledger and the event plan is written, with the event.
  abbrev pub Appended : ProviderEventRecord → MemoryStore → Type 0
  Appended input t =
      (e : ProviderEventRecord) × (ledger : DeliveryLedgerSnapshot) × (planned : DeliveryLedgerPlan
        × ProviderEventRecord)
      × (parse_event p input ≡ ok e)
      × (delivery_ledger p e.message_id s ≡ some ledger)
      × (plan_provider_event p ledger.state e ≡ ok planned)
      × Holds planned.0 none (some e) t

  -- What the stored ledger and the local state plan is written.
  abbrev pub Applied : String → LocalStatus → String → MemoryStore → Type 0
  Applied message_id status updated_at t =
      (ledger : DeliveryLedgerSnapshot) × (plan : DeliveryLedgerPlan) × (delivery_ledger p
          message_id s
        ≡ some ledger)
      × (plan_local_recipient_state p ledger.state status updated_at ≡ ok plan)
      × Holds plan none none t

  commit_and_read-Holds :
      (id : String) (plan : DeliveryLedgerPlan) (attempt : Option DeliveryAttemptRecord)
      (event : Option ProviderEventRecord)
      → IsLedger p plan.state
      → Unless (Holds plan attempt event) (commit_and_read p hook id plan attempt event s).1
  unfolding commit_and_read
  commit_and_read-Holds id plan attempt event v =
      and_then-either (Unless (Holds plan attempt event))
        (commit_ledger_plan hook plan attempt event s, s) _ (inl refl)
        (λ t e. inr (v, commit_ledger_plan-Written p hook plan attempt event s v e))

  Unless-map :
      (P Q : MemoryStore → Type 0) (t : MemoryStore) → (P t → Q t) → Unless P t → Unless Q t
  Unless-map P Q t f (inl e) = inl e
  Unless-map P Q t f (inr x) = inr (f x)

  begin_attempt-Begun :
      (input a : DeliveryAttemptRecord) (ledger : DeliveryLedgerSnapshot)
      (existing : Option DeliveryAttemptRecord)
      → parse_attempt p input ≡ ok a
      → delivery_ledger p a.message_id s ≡ some ledger
      → Unless (Begun input) (begin_attempt p hook ledger a existing s).1
  unfolding begin_attempt
  begin_attempt-Begun input a ledger (some existing) parsed read = inl refl
  begin_attempt-Begun input a ledger none parsed read =
      and_then-either (Unless (Begun input)) (plan_attempt_start p ledger.state a, s) _ (inl refl)
        (λ planned e.
          Unless-map (Holds planned.0 (some a) none) (Begun input) _
            (λ held. (a, ledger, planned, parsed, read, e, held))
            (commit_and_read-Holds a.message_id planned.0 (some a) none
              (plan_attempt_start-IsLedger p ledger.state a planned e)))

  complete_attempt-Completed :
      (active : Bool) (ledger : DeliveryLedgerSnapshot) (existing : DeliveryAttemptRecord)
      (c : AttemptCompletion)
      → delivery_ledger p c.message_id s ≡ some ledger
      → Unless (Completed c) (complete_attempt p hook active ledger existing c s).1
  unfolding complete_attempt
  complete_attempt-Completed false ledger existing c read = inl refl
  complete_attempt-Completed true ledger existing c read =
      and_then-either (Unless (Completed c)) (plan_attempt_completion p ledger.state c, s) _
        (inl refl)
        (λ planned e.
          Unless-map (Holds planned.0 (some planned.1) none) (Completed c) _
            (λ held. (ledger, planned, read, e, held))
            (commit_and_read-Holds c.message_id planned.0 (some planned.1) none
              (plan_attempt_completion-IsLedger p ledger.state c planned e)))

  append_event-Appended :
      (input event : ProviderEventRecord) (existing : Option ProviderEventRecord)
      → parse_event p input ≡ ok event
      → Unless (Appended input) (append_event p hook event existing s).1
  unfolding append_event
  append_event-Appended input event (some existing) parsed = inl refl
  append_event-Appended input event none parsed =
      if_found-either (Unless (Appended input)) (delivery_ledger p event.message_id s) s _
        (inl refl)
        (λ ledger read.
          and_then-either (Unless (Appended input)) (plan_provider_event p ledger.state event, s) _
            (inl refl)
            (λ planned e.
              Unless-map (Holds planned.0 none (some event)) (Appended input) _
                (λ held. (event, ledger, planned, parsed, read, e, held))
                (commit_and_read-Holds event.message_id planned.0 none (some event)
                  (plan_provider_event-IsLedger p ledger.state event planned e))))

  -- Whatever an operation ends with, an error or a hook that throws, and whatever it is given: the
  -- store is as it was, or it has all that the operation plans for the ledger that it read, which is a
  -- valid ledger, and is otherwise as it was: the email, the message and the recipients of the plan,
  -- the last read back in the message's order, and the attempt that is started or completed, or the
  -- event.
  pub ledger_operations_are_atomic :
      (a : DeliveryAttemptRecord) (c : AttemptCompletion) (event : ProviderEventRecord)
      (message_id updated_at : String) (status : LocalStatus)
      → Unless (Begun a) (begin_delivery_attempt p hook a s).1
        × Unless (Completed c) (complete_delivery_attempt p hook c s).1
        × Unless (Appended event) (append_provider_event p hook event s).1
        × Unless
            (Applied message_id status updated_at)
            (apply_local_delivery_state p hook message_id status updated_at s).1
  unfolding begin_delivery_attempt complete_delivery_attempt append_provider_event
      apply_local_delivery_state
  ledger_operations_are_atomic a c event message_id updated_at status = (
    and_then-either (Unless (Begun a)) (parse_attempt p a, s) _ (inl refl)
        (λ x parsed.
          if_found-either (Unless (Begun a)) (delivery_ledger p x.message_id s) s _ (inl refl)
            (λ ledger read. begin_attempt-Begun a x ledger _ parsed read)),
    if_found-either (Unless (Completed c)) (delivery_ledger p c.message_id s) s _ (inl refl)
        (λ ledger read.
          and_then-either (Unless (Completed c))
            (require (find (λ y. y.id == c.attempt_id) ledger.state.attempts) attempt_missing, s) _
            (inl refl) (λ existing _. complete_attempt-Completed _ ledger existing c read)),
    and_then-either (Unless (Appended event)) (parse_event p event, s) _ (inl refl)
        (λ x parsed. append_event-Appended event x (get x.id s.provider_events) parsed),
    if_found-either (Unless (Applied message_id status updated_at)) (delivery_ledger p message_id s)
        s _ (inl refl)
        (λ ledger read.
          and_then-either (Unless (Applied message_id status updated_at))
            (plan_local_recipient_state p ledger.state status updated_at, s) _ (inl refl)
            (λ plan e.
              Unless-map (Holds plan none none) (Applied message_id status updated_at) _
                (λ held. (ledger, plan, read, e, held))
                (commit_and_read-Holds message_id plan none none
                  (plan_local_recipient_state-IsLedger p ledger.state status updated_at plan e)))),
  )
