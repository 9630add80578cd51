-- ===== src/Store/Snapshots.antt =====
-- adapters/memory-store.ts: the ledger of a delivery in the store: `deliveryLedger`,
-- `deliveryLedgerResult` and `commitLedgerPlan`.
use hayasend.Base.{
  ℕ, suc, ◌+◌, String, Bool, not, ◌&&◌, ◌||◌, List, [], ◌∷◌, Option, none, some, Result, ok, ◌>>=◌,
  ◌>>◌, nat_beq, ltb, ◌==◌, string_eq, nat_eq, option_eq, list_eq, bool_eq, filter_by, sort, length,
}
use hayasend.Base.Assoc.{Assoc, get, put, values}
use hayasend.Platform.{Platform}
use hayasend.Model.Status.{attempt_status_eq, diagnostic_category_eq, event_type_eq}
use hayasend.Model.Records.{
  RecipientRecord, DeliveryAttemptRecord, ProviderEventRecord, attempt_record_eq,
  provider_reference_eq,
}
use hayasend.Model.Schemas.{parse_event}
use hayasend.Model.Identity.{event_source_eq}
use hayasend.Ledger.State.{DeliveryLedgerState, DeliveryLedgerPlan}
use hayasend.Store.State.{MemoryStore, LedgerEntity, ledger, Hook, after_delivery_mutation}
use hayasend.Store.Deliveries.{all_present}

-- DeliveryLedgerSnapshot
pub record DeliveryLedgerSnapshot : Type 0 where
  pub state : DeliveryLedgerState
  pub events : List ProviderEventRecord

pub record DeliveryLedgerMutationResult : Type 0 where
  pub snapshot : DeliveryLedgerSnapshot
  pub replayed : Bool
  pub changed_recipient_ids : List String
  pub attempt : Option DeliveryAttemptRecord
  pub event : Option ProviderEventRecord

unfoldable pub attempt_le : Platform → DeliveryAttemptRecord → DeliveryAttemptRecord → Bool
attempt_le p a b =
    ltb a.sequence b.sequence || (nat_beq a.sequence b.sequence && p.locale_le a.id b.id)

unfoldable pub event_le : Platform → ProviderEventRecord → ProviderEventRecord → Bool
event_le p a b =
    not (p.locale_le b.received_at a.received_at)
    || (p.locale_le a.received_at b.received_at && p.locale_le a.id b.id)

-- isEquivalentProviderEventReplay: both events parse, and have the same JSON but for `received_at`.
unfoldable pub same_event : ProviderEventRecord → ProviderEventRecord → Bool
same_event a b =
    (a.id == b.id
      && a.provider == b.provider
      && a.source == b.source
      && a.message_id == b.message_id
      && a.attempt_id == b.attempt_id
      && a.recipient_ids == b.recipient_ids)
    && (a.provider_message_id == b.provider_message_id
        && a.kind == b.kind
        && a.provider_at == b.provider_at
        && a.terminal == b.terminal
        && a.diagnostic_category == b.diagnostic_category)

unfoldable pub is_equivalent_provider_event_replay :
    Platform → ProviderEventRecord → ProviderEventRecord → Result Bool
is_equivalent_provider_event_replay p a b = do
  left ← parse_event p a
  right ← parse_event p b
  ok (same_event left right)

module _ (p : Platform) where
  unfoldable pub delivery_ledger : String → MemoryStore → Option DeliveryLedgerSnapshot
  delivery_ledger message_id s = elim (get message_id s.emails) [
    | none ↦ none
    | some email ↦ elim (get message_id s.delivery_messages) [
      | none ↦ none
      | some message ↦ elim (all_present message.recipient_ids s.delivery_recipients) [
        | none ↦ none
        | some recipients ↦ some (record {
          state = record {
            email = email;
            message = message;
            recipients = recipients;
            attempts =
                sort (attempt_le p)
                  (filter_by (λ a. a.message_id == message_id) (values s.delivery_attempts));
          };
          events =
              sort (event_le p)
                (filter_by (λ e. e.message_id == message_id) (values s.provider_events));
        })
      ]
    ]
  ]

  unfoldable pub delivery_ledger_result :
      String
      → Bool
      → List String
      → Option DeliveryAttemptRecord
      → Option ProviderEventRecord
      → MemoryStore
      → Option DeliveryLedgerMutationResult
  delivery_ledger_result message_id replayed changed attempt event s =
      elim (delivery_ledger message_id s) [
        | none ↦ none
        | some snapshot ↦ some (record {
          snapshot = snapshot;
          replayed = replayed;
          changed_recipient_ids = changed;
          attempt = attempt;
          event = event;
        })
      ]

-- The loop over the recipients, from the given index; the hook has been called twice before it.
unfoldable pub stage_ledger_recipients :
    Hook → ℕ → List RecipientRecord → Assoc RecipientRecord → Result (Assoc RecipientRecord)
stage_ledger_recipients hook n [] m = ok m
stage_ledger_recipients hook n (r ∷ rs) m = do
  after_delivery_mutation hook (n + 2) (ledger (LedgerEntity.recipient n))
  stage_ledger_recipients hook (suc n) rs (put r.id r m)

unfoldable pub stage_attempt :
    Hook
    → ℕ
    → Option DeliveryAttemptRecord
    → Assoc DeliveryAttemptRecord
    → Result (Assoc DeliveryAttemptRecord)
stage_attempt hook n none m = ok m
stage_attempt hook n (some a) m = do
  after_delivery_mutation hook n (ledger LedgerEntity.attempt)
  ok (put a.id a m)

unfoldable pub stage_event :
    Hook
    → ℕ
    → Option ProviderEventRecord
    → Assoc ProviderEventRecord
    → Result (Assoc ProviderEventRecord)
stage_event hook n none m = ok m
stage_event hook n (some e) m = do
  after_delivery_mutation hook n (ledger LedgerEntity.provider_event)
  ok (put e.id e m)

-- The store after the swap. No plan comes with both an attempt and an event, so that the hook has
-- been called as often before the one as before the other.
unfoldable pub commit_ledger_plan :
    Hook
    → DeliveryLedgerPlan
    → Option DeliveryAttemptRecord
    → Option ProviderEventRecord
    → MemoryStore
    → Result MemoryStore
commit_ledger_plan hook plan attempt event s = do
  after_delivery_mutation hook 0 (ledger LedgerEntity.email)
  after_delivery_mutation hook 1 (ledger LedgerEntity.message)
  recipients ← stage_ledger_recipients hook 0 plan.recipients s.delivery_recipients
  attempts ← stage_attempt hook (length plan.recipients + 2) attempt s.delivery_attempts
  events ← stage_event hook (length plan.recipients + 2) event s.provider_events
  ok (record s {
    emails = put plan.email.id plan.email s.emails;
    delivery_messages = put plan.message.id plan.message s.delivery_messages;
    delivery_recipients = recipients;
    delivery_attempts = attempts;
    provider_events = events;
  })
