-- ===== src/Store/Ledgers.antt =====
-- adapters/memory-store.ts: the operations on the ledger of a delivery in the store.
pub mod Writes
pub mod Whole
pub mod Events
use hayasend.Base.{
  ℕ, suc, zero, ◌+◌, String, Bool, true, false, not, ◌&&◌, ◌||◌, List, [], ◌∷◌, Option, none, some,
  Result, Error, ok, err, ◌>>=◌, ◌>>◌, refuse_if, require, attempt_in_use, attempt_missing,
  completed_differently, event_in_use, nat_beq, leb, ltb, if◌then◌else◌, ◌==◌, string_eq, nat_eq,
  option_eq, list_eq, bool_eq, find, filter_by, sort, length,
}
use hayasend.Base.Assoc.{Assoc, get, put, values}
use hayasend.Platform.{Platform, to_iso}
use hayasend.Model.Status.{AttemptStatus, attempt_status_eq, diagnostic_category_eq, event_type_eq}
use hayasend.Model.Records.{
  EmailRecord, DeliveryMessageRecord, RecipientRecord, DeliveryAttemptRecord, ProviderEventRecord,
  attempt_record_eq, provider_reference_eq,
}
use hayasend.Model.Schemas.{parse_attempt, parse_event}
use hayasend.Model.Identity.{EventSource, event_source_eq}
use hayasend.Ledger.State.{DeliveryLedgerState, DeliveryLedgerPlan}
use hayasend.Ledger.Attempts.{
  AttemptCompletion, attempt_status, plan_attempt_start, plan_attempt_completion,
}
use hayasend.Ledger.Events.{LocalStatus, plan_provider_event, plan_local_recipient_state}
use hayasend.Store.State.{
  MemoryStore, LedgerEntity, ledger, Hook, after_delivery_mutation, Outcome, and_then, if_found,
}
use hayasend.Store.Deliveries.{all_present}
use hayasend.Store.Snapshots.{
  DeliveryLedgerSnapshot, DeliveryLedgerMutationResult, is_equivalent_provider_event_replay,
  delivery_ledger, delivery_ledger_result, commit_ledger_plan,
}

module _ (p : Platform) (hook : Hook) where
  -- The commit of a plan, and the ledger that is read back from the store.
  unfoldable pub commit_and_read :
      String
      → DeliveryLedgerPlan
      → Option DeliveryAttemptRecord
      → Option ProviderEventRecord
      → MemoryStore
      → Outcome (Option DeliveryLedgerMutationResult)
  commit_and_read message_id plan attempt event s =
      and_then (commit_ledger_plan hook plan attempt event s, s)
        (λ next _. (
          ok (
              delivery_ledger_result p message_id false plan.changed_recipient_ids attempt event
                next),
          next,
        ))

  -- An attempt of the same identifier or sequence is a replay, or a conflict.
  unfoldable pub replay_attempt :
      DeliveryAttemptRecord
      → DeliveryAttemptRecord
      → MemoryStore
      → Result (Option DeliveryLedgerMutationResult)
  replay_attempt existing a s = do
    refuse_if (not (existing == a)) attempt_in_use
    ok (delivery_ledger_result p a.message_id true [] (some existing) none s)

  unfoldable pub begin_attempt :
      DeliveryLedgerSnapshot
      → DeliveryAttemptRecord
      → Option DeliveryAttemptRecord
      → MemoryStore
      → Outcome (Option DeliveryLedgerMutationResult)
  begin_attempt snapshot a (some existing) s = (replay_attempt existing a s, s)
  begin_attempt snapshot a none s =
      and_then (plan_attempt_start p snapshot.state a, s)
        (λ planned s. commit_and_read a.message_id planned.0 (some a) none s)

  unfoldable pub begin_delivery_attempt :
      DeliveryAttemptRecord → MemoryStore → Outcome (Option DeliveryLedgerMutationResult)
  begin_delivery_attempt input s =
      and_then (parse_attempt p input, s)
        (λ a s. if_found (delivery_ledger p a.message_id s) s (λ snapshot.
          begin_attempt snapshot a
            (find (λ x. x.id == a.id || nat_beq x.sequence a.sequence) snapshot.state.attempts) s))

  -- `sameCompletion`: the time is converted only where the status is the same.
  unfoldable pub same_completion : DeliveryAttemptRecord → AttemptCompletion → Result Bool
  same_completion a c =
      if a.status == attempt_status c.status
      then (to_iso p c.completed_at >>= λ t. ok (
          a.completed_at == some t
          && a.provider_message_id == c.provider_message_id
          && a.diagnostic_category == c.diagnostic_category))
      else ok false

  unfoldable pub replay_completion :
      DeliveryAttemptRecord
      → AttemptCompletion
      → MemoryStore
      → Result (Option DeliveryLedgerMutationResult)
  replay_completion a c s = do
    same ← same_completion a c
    refuse_if (not same) completed_differently
    ok (delivery_ledger_result p c.message_id true [] (some a) none s)

  unfoldable pub complete_attempt :
      Bool
      → DeliveryLedgerSnapshot
      → DeliveryAttemptRecord
      → AttemptCompletion
      → MemoryStore
      → Outcome (Option DeliveryLedgerMutationResult)
  complete_attempt false snapshot existing c s = (replay_completion existing c s, s)
  complete_attempt true snapshot existing c s =
      and_then (plan_attempt_completion p snapshot.state c, s)
        (λ planned s. commit_and_read c.message_id planned.0 (some planned.1) none s)

  unfoldable pub complete_delivery_attempt :
      AttemptCompletion → MemoryStore → Outcome (Option DeliveryLedgerMutationResult)
  complete_delivery_attempt c s = if_found (delivery_ledger p c.message_id s) s (λ snapshot.
      and_then
        (require (find (λ a. a.id == c.attempt_id) snapshot.state.attempts) attempt_missing, s)
        (λ existing s.
          complete_attempt (existing.status == AttemptStatus.submitting) snapshot existing c s))

  unfoldable pub replay_event :
      ProviderEventRecord
      → ProviderEventRecord
      → MemoryStore
      → Result (Option DeliveryLedgerMutationResult)
  replay_event existing event s = do
    same ← is_equivalent_provider_event_replay p existing event
    refuse_if (not same) event_in_use
    ok (delivery_ledger_result p existing.message_id true [] none (some existing) s)

  unfoldable pub append_event :
      ProviderEventRecord
      → Option ProviderEventRecord
      → MemoryStore
      → Outcome (Option DeliveryLedgerMutationResult)
  append_event event (some existing) s = (replay_event existing event s, s)
  append_event event none s = if_found (delivery_ledger p event.message_id s) s (λ snapshot.
      and_then (plan_provider_event p snapshot.state event, s)
        (λ planned s. commit_and_read event.message_id planned.0 none (some event) s))

  unfoldable pub append_provider_event :
      ProviderEventRecord → MemoryStore → Outcome (Option DeliveryLedgerMutationResult)
  append_provider_event input s =
      and_then (parse_event p input, s)
        (λ event s. append_event event (get event.id s.provider_events) s)

  unfoldable pub apply_local_delivery_state :
      String → LocalStatus → String → MemoryStore → Outcome (Option DeliveryLedgerMutationResult)
  apply_local_delivery_state message_id status updated_at s =
      if_found (delivery_ledger p message_id s) s (λ snapshot.
        and_then (plan_local_recipient_state p snapshot.state status updated_at, s)
          (λ plan s. commit_and_read message_id plan none none s))
