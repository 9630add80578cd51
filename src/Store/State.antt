-- ===== src/Store/State.antt =====
-- adapters/memory-store.ts: the maps of the store, and the hook that runs after a staged write.
use hayasend.Base.{
  ℕ, ◌≡◌, String, Bool, Option, none, some, Result, ok, err, hook_error, refuse_if, err-ne-ok, refl,
  none-ne-some, ok_inj,
}
use hayasend.Base.Assoc.{Assoc}
use hayasend.Model.Records.{
  EmailRecord, DeliveryMessageRecord, RecipientRecord, DeliveryAttemptRecord, ProviderEventRecord,
  OutboxItemRecord,
}

-- An IdempotencyClaim with the email that it stands for.
pub record IdempotencyEntry : Type 0 where
  pub key_hash : String
  pub request_hash : String
  pub expires_at : ℕ
  pub email_id : String

pub record MemoryStore : Type 0 where
  pub emails : Assoc EmailRecord
  pub idempotency : Assoc IdempotencyEntry
  pub delivery_messages : Assoc DeliveryMessageRecord
  pub delivery_recipients : Assoc RecipientRecord
  pub delivery_attempts : Assoc DeliveryAttemptRecord
  pub provider_events : Assoc ProviderEventRecord
  pub outbox_items : Assoc OutboxItemRecord
  pub outbox_by_message : Assoc String
  pub outbox_publish_failures : ℕ

pub data CommitEntity : Type 0 where
  email message idempotency outbox : CommitEntity
  recipient : ℕ → CommitEntity

pub data LedgerEntity : Type 0 where
  email message attempt provider_event : LedgerEntity
  recipient : ℕ → LedgerEntity

-- MemoryDeliveryMutation: what the hook is told.
pub data MemoryDeliveryMutation : Type 0 where
  commit : CommitEntity → MemoryDeliveryMutation
  ledger : LedgerEntity → MemoryDeliveryMutation
  commit_swap lease acknowledge failure : MemoryDeliveryMutation

-- The hook `afterDeliveryMutation`: whether it throws on a mutation, given how many calls of the
-- same operation it has answered before.
abbrev pub Hook : Type 0
Hook = ℕ → MemoryDeliveryMutation → Bool

unfoldable pub after_delivery_mutation : Hook → ℕ → MemoryDeliveryMutation → Result (Unit {0})
after_delivery_mutation hook n mutation = refuse_if (hook n mutation) hook_error

-- What an operation gives or throws, with the store that it leaves.
abbrev pub Outcome {ℓ} : Type ℓ → Type ℓ
Outcome A = Result A × MemoryStore

-- Go on with the value and the store, unless there was an error.
unfoldable pub and_then {ℓ κ ι} :
    {S : Type ℓ} {A : Type κ} {B : Type ι} → Result A × S → (A → S → Result B × S) → Result B × S
and_then (err e, s) next = (err e, s)
and_then (ok a, s) next = next a s

-- `if (!a) return undefined`
unfoldable pub if_found {ℓ κ ι} :
    {S : Type ℓ} {A : Type κ} {B : Type ι}
    → Option A
    → S
    → (A → Result (Option B) × S)
    → Result (Option B) × S
if_found none s next = (ok none, s)
if_found (some a) s next = next a

module _ {ℓ κ ι} {S : Type ℓ} {A : Type κ} {B : Type ι} where
  -- What the first step keeps and the rest keeps, the whole keeps.
  pub and_then-keeps {η} :
      (P : S → Type η) (m : Result A × S) (next : A → S → Result B × S)
      → P m.1
      → ((a : A) (s : S) → P s → P (next a s).1)
      → P (and_then m next).1
  unfolding and_then
  and_then-keeps P (err e, s) next h k = h
  and_then-keeps P (ok a, s) next h k = k a s h

  pub and_then-eq-ok :
      (m : Result A × S) (next : A → S → Result B × S) {b : B}
      → (and_then m next).0 ≡ ok b
      → (a : A) × (m.0 ≡ ok a) × ((next a m.1).0 ≡ ok b) × ((and_then m next).1 ≡ (next a m.1).1)
  unfolding and_then
  and_then-eq-ok (err e, s) next h = absurd (err-ne-ok h)
  and_then-eq-ok (ok a, s) next h = (a, refl, h, refl)

  -- An error of the first step leaves its store; otherwise the next step ran on its result.
  pub and_then-either {η} :
      (P : S → Type η) (m : Result A × S) (next : A → S → Result B × S)
      → P m.1
      → ((a : A) → m.0 ≡ ok a → P (next a m.1).1)
      → P (and_then m next).1
  unfolding and_then
  and_then-either P (err e, s) next h k = h
  and_then-either P (ok a, s) next h k = k a refl

  pub if_found-either {η} :
      (P : S → Type η) (m : Option A) (s : S) (next : A → Result (Option B) × S)
      → P s
      → ((a : A) → m ≡ some a → P (next a).1)
      → P (if_found m s next).1
  unfolding if_found
  if_found-either P none s next h k = h
  if_found-either P (some a) s next h k = k a refl

  pub if_found-eq-some :
      (m : Option A) (s : S) (next : A → Result (Option B) × S) {b : B}
      → (if_found m s next).0 ≡ ok (some b)
      → (a : A) × (m ≡ some a) × ((next a).0 ≡ ok (some b)) × ((if_found m s next).1 ≡ (next a).1)
  unfolding if_found
  if_found-eq-some none s next h = absurd (none-ne-some (ok_inj h))
  if_found-eq-some (some a) s next h = (a, refl, h, refl)
