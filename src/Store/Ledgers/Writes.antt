-- ===== src/Store/Ledgers/Writes.antt =====
-- The write of a plan of a ledger to the store, map by map.
use hayasend.Base.{
  ℕ, suc, ◌+◌, ◌≡◌, ◌≢◌, refl, sym, ap, subst, ◌∙◌, String, false, List, [], ◌∷◌, Option, none,
  some, ok, >>=-eq-ok, ok_inj, ◌==◌, string_eq, if◌then◌else◌, includes, all-includes_self, length,
  arith,
}
use hayasend.Base.Assoc.{Assoc, get, put, get-put, get-put_same, get-put_ne}
use hayasend.Platform.{Platform}
use hayasend.Model.Records.{RecipientRecord, DeliveryAttemptRecord, ProviderEventRecord}
use hayasend.Ledger.State.{
  DeliveryLedgerState, DeliveryLedgerPlan, or_else, recipient_by_id, in_message_order,
}
use hayasend.Ledger.Order.{recipient_by_id_missing, in_message_order_self}
use hayasend.Ledger.Invariant.{IsLedger, message_valid-unique}
use hayasend.Store.State.{MemoryStore, LedgerEntity, ledger, Hook, after_delivery_mutation}
use hayasend.Store.Deliveries.{all_present}
use hayasend.Store.Deliveries.Stored.{all_present_staged}
use hayasend.Store.Snapshots.{
  stage_ledger_recipients, stage_attempt, stage_event, commit_ledger_plan,
}

-- What stands under a key after a record, if there is one, was written under its identifier.
abbrev pub over {ℓ} : {V : Type ℓ} → (V → String) → Option V → String → Option V → Option V
over id none k before = before
over id (some v) k before = if id v == k then some v else before

-- What one call of `commitLedgerPlan` leaves, map by map: the records of the plan stand under their
-- identifiers, with the attempt and the event, and nothing else has changed.
pub record Written (plan : DeliveryLedgerPlan) (attempt : Option DeliveryAttemptRecord)
    (event : Option ProviderEventRecord) (s t : MemoryStore) : Type 0 where
  pub email : get plan.email.id t.emails ≡ some plan.email
  pub other_emails : (k : String) → plan.email.id ≢ k → get k t.emails ≡ get k s.emails
  pub message : get plan.message.id t.delivery_messages ≡ some plan.message
  pub other_messages :
      (k : String) → plan.message.id ≢ k → get k t.delivery_messages ≡ get k s.delivery_messages
  -- in the message's order, they are read back as the plan has them
  pub recipients :
      all_present plan.message.recipient_ids t.delivery_recipients ≡ some plan.recipients
  pub other_recipients :
      (k : String)
      → includes plan.message.recipient_ids k ≡ false
      → get k t.delivery_recipients ≡ get k s.delivery_recipients
  pub attempts :
      (k : String)
      → get k t.delivery_attempts ≡ over (λ a. a.id) attempt k (get k s.delivery_attempts)
  pub events :
      (k : String) → get k t.provider_events ≡ over (λ e. e.id) event k (get k s.provider_events)
  pub claims : t.idempotency ≡ s.idempotency
  pub outbox : t.outbox_items ≡ s.outbox_items
  pub outbox_index : t.outbox_by_message ≡ s.outbox_by_message
  pub failures : t.outbox_publish_failures ≡ s.outbox_publish_failures

-- What stands under an identifier after the loop over the recipients.
stage_ledger_recipients-get :
    (hook : Hook) (n : ℕ) (rs : List RecipientRecord) (m : Assoc RecipientRecord)
    {m' : Assoc RecipientRecord}
    → stage_ledger_recipients hook n rs m ≡ ok m'
    → (id : String) → get id m' ≡ or_else (recipient_by_id id rs) (get id m)
unfolding stage_ledger_recipients recipient_by_id
stage_ledger_recipients-get hook n [] m h id = ap (get id) (sym (ok_inj h))
stage_ledger_recipients-get hook n (r ∷ rs) m h id =
    let (_, _, h1) =
      >>=-eq-ok (after_delivery_mutation hook (n + 2) (ledger (LedgerEntity.recipient n))) _ h in
    ground
      (arith, stage_ledger_recipients-get hook (suc n) rs (put r.id r m) h1 id, get-put r.id id r m)

stage_attempt-get :
    (hook : Hook) (n : ℕ) (attempt : Option DeliveryAttemptRecord) (m : Assoc DeliveryAttemptRecord)
    {m' : Assoc DeliveryAttemptRecord}
    → stage_attempt hook n attempt m ≡ ok m'
    → (k : String) → get k m' ≡ over (λ a. a.id) attempt k (get k m)
unfolding stage_attempt
stage_attempt-get hook n none m h k = ap (get k) (sym (ok_inj h))
stage_attempt-get hook n (some a) m h k =
    let (_, _, h1) = >>=-eq-ok (after_delivery_mutation hook n (ledger LedgerEntity.attempt)) _ h in
    ap (get k) (sym (ok_inj h1)) ∙ get-put a.id k a m

stage_event-get :
    (hook : Hook) (n : ℕ) (event : Option ProviderEventRecord) (m : Assoc ProviderEventRecord)
    {m' : Assoc ProviderEventRecord}
    → stage_event hook n event m ≡ ok m'
    → (k : String) → get k m' ≡ over (λ e. e.id) event k (get k m)
unfolding stage_event
stage_event-get hook n none m h k = ap (get k) (sym (ok_inj h))
stage_event-get hook n (some e) m h k =
    let (_, _, h1) =
      >>=-eq-ok (after_delivery_mutation hook n (ledger LedgerEntity.provider_event)) _ h in
    ap (get k) (sym (ok_inj h1)) ∙ get-put e.id k e m

-- The recipients of a ledger, once they are written, are read back in its order.
all_present_ledger :
    (p : Platform) (st : DeliveryLedgerState) (m m' : Assoc RecipientRecord)
    → IsLedger p st
    → ((id : String) → get id m' ≡ or_else (recipient_by_id id st.recipients) (get id m))
    → all_present st.message.recipient_ids m' ≡ some st.recipients
all_present_ledger p st m m' v found =
    all_present_staged st.message.recipient_ids st.recipients m m'
      (rw v.ordered (all-includes_self st.message.recipient_ids)) found
    ∙ ap some in_place
  where
    in_place : in_message_order st.message.recipient_ids st.recipients ≡ st.recipients
    in_place = rw (← v.ordered) (
        in_message_order_self st.recipients
          (rw v.ordered (message_valid-unique p st.message v.message_ok)))

pub commit_ledger_plan-Written :
    (p : Platform) (hook : Hook) (plan : DeliveryLedgerPlan)
    (attempt : Option DeliveryAttemptRecord) (event : Option ProviderEventRecord) (s : MemoryStore)
    {t : MemoryStore}
    → IsLedger p plan.state
    → commit_ledger_plan hook plan attempt event s ≡ ok t
    → Written plan attempt event s t
unfolding commit_ledger_plan
commit_ledger_plan-Written p hook plan attempt event s v h =
    let (_, _, h1) = >>=-eq-ok (after_delivery_mutation hook 0 (ledger LedgerEntity.email)) _ h in
    let (_, _, h2) =
      >>=-eq-ok (after_delivery_mutation hook 1 (ledger LedgerEntity.message)) _ h1 in
    let (rs, looped, h3) =
      >>=-eq-ok (stage_ledger_recipients hook 0 plan.recipients s.delivery_recipients) _ h2 in
    let (attempts, tried, h4) =
      >>=-eq-ok (stage_attempt hook (length plan.recipients + 2) attempt s.delivery_attempts) _
        h3 in
    let (events, told, h5) =
      >>=-eq-ok (stage_event hook (length plan.recipients + 2) event s.provider_events) _ h4 in
    let found = stage_ledger_recipients-get hook 0 plan.recipients s.delivery_recipients looped in
    subst (Written plan attempt event s) (ok_inj h5) (record {
      email = get-put_same plan.email.id plan.email.id plan.email s.emails refl;
      other_emails = λ k d. get-put_ne plan.email.id k plan.email s.emails d;
      message = get-put_same plan.message.id plan.message.id plan.message s.delivery_messages refl;
      other_messages = λ k d. get-put_ne plan.message.id k plan.message s.delivery_messages d;
      recipients = all_present_ledger p plan.state s.delivery_recipients rs v found;
      other_recipients =
          λ k d. found k ∙ rw (recipient_by_id_missing k plan.recipients (rw v.ordered d)) refl;
      attempts = stage_attempt-get hook _ attempt s.delivery_attempts tried;
      events = stage_event-get hook _ event s.provider_events told;
      claims = refl;
      outbox = refl;
      outbox_index = refl;
      failures = refl;
    })
