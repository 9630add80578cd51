-- ===== src/Store/Ledgers/Events.antt =====
-- A provider event that a webhook delivers more than once is recorded once.
use hayasend.Base.{
  ◌+◌, ◌≡◌, refl, sym, ap, subst, ◌∙◌, String, Bool, true, false, not, List, [], Option, none, some,
  ok, >>=-eq-ok, refuse_if-eq-ok, ok_inj, string_eq, beq→eq, length, true-ne-false, arith,
  option_eq, list_eq, bool_eq, event_in_use,
}
use hayasend.Base.Assoc.{get, get-put_same}
use hayasend.Platform.{Platform}
use hayasend.Model.Records.{DeliveryAttemptRecord, ProviderEventRecord}
use hayasend.Model.Schemas.{parse_event, event_valid}
use hayasend.Model.Schemas.Laws.{parse_event-eq-ok, parse_event_of_valid}
use hayasend.Ledger.State.{DeliveryLedgerPlan}
use hayasend.Ledger.Events.{plan_provider_event}
use hayasend.Store.State.{
  MemoryStore, LedgerEntity, ledger, Hook, after_delivery_mutation, and_then, and_then-eq-ok,
  if_found-eq-some,
}
use hayasend.Store.Snapshots.{
  DeliveryLedgerMutationResult, delivery_ledger, delivery_ledger_result, commit_ledger_plan,
  stage_ledger_recipients, stage_attempt, stage_event, same_event,
  is_equivalent_provider_event_replay,
}
use hayasend.Store.Ledgers.{commit_and_read, replay_event, append_event, append_provider_event}

commit_ledger_plan-event :
    (hook : Hook) (plan : DeliveryLedgerPlan) (attempt : Option DeliveryAttemptRecord)
    (e : ProviderEventRecord) (s : MemoryStore) {t : MemoryStore}
    → commit_ledger_plan hook plan attempt (some e) s ≡ ok t
    → get e.id t.provider_events ≡ some e
unfolding commit_ledger_plan stage_event
commit_ledger_plan-event hook plan attempt e s h =
    let (_, _, h1) = >>=-eq-ok (after_delivery_mutation hook 0 (ledger LedgerEntity.email)) _ h in
    let (_, _, h2) =
      >>=-eq-ok (after_delivery_mutation hook 1 (ledger LedgerEntity.message)) _ h1 in
    let (_, _, h3) =
      >>=-eq-ok (stage_ledger_recipients hook 0 plan.recipients s.delivery_recipients) _ h2 in
    let (_, _, h4) =
      >>=-eq-ok (stage_attempt hook (length plan.recipients + 2) attempt s.delivery_attempts) _
        h3 in
    let (events, staged, h5) =
      >>=-eq-ok (stage_event hook (length plan.recipients + 2) (some e) s.provider_events) _ h4 in
    let (_, _, put_is) =
      >>=-eq-ok
        (after_delivery_mutation hook (length plan.recipients + 2)
          (ledger LedgerEntity.provider_event))
        _ staged in
    subst (λ (x : MemoryStore). get e.id x.provider_events ≡ some e) (ok_inj h5)
      (subst (λ m. get e.id m ≡ some e) (ok_inj put_is)
        (get-put_same e.id e.id e s.provider_events refl))

module _ (p : Platform) (hook : Hook) where
  delivery_ledger_result-replayed :
      (id : String) (replayed : Bool) (changed : List String) (a : Option DeliveryAttemptRecord)
      (e : Option ProviderEventRecord) (s : MemoryStore) {r : DeliveryLedgerMutationResult}
      → delivery_ledger_result p id replayed changed a e s ≡ some r
      → r.replayed ≡ replayed
  unfolding delivery_ledger_result
  delivery_ledger_result-replayed id replayed changed a e s h = ground arith

  append_event-stored :
      (e : ProviderEventRecord) (existing : Option ProviderEventRecord) (s : MemoryStore)
      {r : DeliveryLedgerMutationResult}
      → (append_event p hook e existing s).0 ≡ ok (some r)
      → r.replayed ≡ false
      → get e.id (append_event p hook e existing s).1.provider_events ≡ some e
  unfolding append_event commit_and_read replay_event
  append_event-stored e (some existing) s h new =
      let (same, _, h1) = >>=-eq-ok (is_equivalent_provider_event_replay p existing e) _ h in
      let (_, h2) = refuse_if-eq-ok (not same) event_in_use _ h1 in
      absurd (
        true-ne-false (
          sym (
            delivery_ledger_result-replayed existing.message_id true [] none (some existing) s
              (ok_inj h2))
          ∙ new))
  append_event-stored e none s h new =
      let (snapshot, _, h1, e1) = if_found-eq-some (delivery_ledger p e.message_id s) s _ h in
      let (planned, _, h2, e2) = and_then-eq-ok (plan_provider_event p snapshot.state e, s) _ h1 in
      let (t, written, _, e3) =
        and_then-eq-ok (commit_ledger_plan hook planned.0 none (some e) s, s) _ h2 in
      subst (λ (x : MemoryStore). get e.id x.provider_events ≡ some e) (sym (e1 ∙ e2 ∙ e3))
        (commit_ledger_plan-event hook planned.0 none e s written)

  append_provider_event-stored :
      (e : ProviderEventRecord) (s : MemoryStore) {r : DeliveryLedgerMutationResult}
      → (append_provider_event p hook e s).0 ≡ ok (some r)
      → r.replayed ≡ false
      → (event_valid p e ≡ true)
        × (get e.id (append_provider_event p hook e s).1.provider_events ≡ some e)
  unfolding append_provider_event
  append_provider_event-stored e s {r} h new =
      let (x, parsed, h1, e1) = and_then-eq-ok (parse_event p e, s) _ h in
      let (valid, same) = parse_event-eq-ok p e parsed in
      (
        valid,
        subst (λ (t : MemoryStore). get e.id t.provider_events ≡ some e) (sym e1)
            (subst
              (λ y.
                get y.id (append_event p hook x (get x.id s.provider_events) s).1.provider_events
                ≡ some y)
              (sym same) (append_event-stored x (get x.id s.provider_events) s h1 new)),
      )

  -- An event of the same identity and content, whatever time it was received at.
  replay_stored_event :
      (e again : ProviderEventRecord) (t : MemoryStore)
      → event_valid p e ≡ true
      → event_valid p again ≡ true
      → same_event e again ≡ true
      → get e.id t.provider_events ≡ some e
      → append_provider_event p hook again t
        ≡ (ok (delivery_ledger_result p e.message_id true [] none (some e) t), t)
  unfolding append_provider_event append_event replay_event is_equivalent_provider_event_replay
      same_event and_then
  replay_stored_event e again t valid valid' same stored =
      let same_id : e.id ≡ again.id = beq→eq e.id again.id (ground (arith, same)) in
      ap (λ m. and_then (m, t) (λ x s. append_event p hook x (get x.id s.provider_events) s))
        (parse_event_of_valid p again valid')
      ∙ ap (λ m. append_event p hook again m t)
          (ap (λ i. get i t.provider_events) (sym same_id) ∙ stored)
      ∙ rw (parse_event_of_valid p e valid, parse_event_of_valid p again valid', same) refl

-- A provider event is applied once: after it has been recorded, a valid event that is the same but
-- for the time at which it was received changes nothing, with any hook, and is answered as a replay
-- with the event that was recorded.
pub provider_event_is_applied_once :
    (p : Platform) (hook hook' : Hook) (e again : ProviderEventRecord) (s : MemoryStore)
    {r : DeliveryLedgerMutationResult}
    → (append_provider_event p hook e s).0 ≡ ok (some r)
    → r.replayed ≡ false
    → event_valid p again ≡ true
    → same_event e again ≡ true
    → let after = (append_provider_event p hook e s).1 in
      append_provider_event p hook' again after
      ≡ (ok (delivery_ledger_result p e.message_id true [] none (some e) after), after)
provider_event_is_applied_once p hook hook' e again s h new valid' same =
    let (valid, stored) = append_provider_event-stored p hook e s h new in
    replay_stored_event p hook' e again _ valid valid' same stored
