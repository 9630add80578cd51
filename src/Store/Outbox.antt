-- ===== src/Store/Outbox.antt =====
-- adapters/memory-store.ts: the outbox: leases on the items that are due, what ends a lease, and
-- the metrics. Times `now` are milliseconds since 1970.
pub mod Leases
pub mod Exclusive
pub mod Grants
pub mod Releases
use hayasend.Base.{
  ℕ, suc, zero, ◌+◌, ◌-◌, ◌*◌, ◌/◌, String, Bool, true, false, not, ◌&&◌, ◌||◌, List, [], ◌∷◌,
  Option, none, some, Result, Error, ok, err, ◌>>=◌, ◌>>◌, refuse_if, invalid_owner,
  invalid_lease_seconds, invalid_limit, limit_too_large, invalid_time, nat_beq, leb, ltb,
  if◌then◌else◌, ◌==◌, string_eq, nat_eq, option_eq, all, filter_by, sort, length, take, is_some,
}
use hayasend.Base.Assoc.{Assoc, get, put, values}
use hayasend.Platform.{Platform, iso_of, not_after}
use hayasend.Model.Status.{DiagnosticCategory}
use hayasend.Model.Formats.{codes}
use hayasend.Text.{is_white, utf16_length}
use hayasend.Model.Records.{OutboxItemRecord}
use hayasend.Model.Schemas.{parse_outbox}
use hayasend.Store.State.{
  MemoryStore, lease, acknowledge, failure, Hook, after_delivery_mutation, Outcome, and_then,
}

-- `limit` and `lease_seconds` are natural numbers, so that only zero is left of what is no
-- positive integer.
pub record LeaseDueOutboxInput : Type 0 where
  pub owner : String
  pub now : ℕ
  pub lease_seconds : ℕ
  pub limit : ℕ

-- ^[^\s@]{1,512}$
unfoldable pub opaque_owner : String → Bool
opaque_owner owner =
    all (λ c. not (is_white c) && not (nat_beq c b'@')) (codes owner)
    && leb 1 (utf16_length (codes owner))
    && leb (utf16_length (codes owner)) 512

-- The four guards of `leaseDueOutbox`.
unfoldable pub lease_input_valid : LeaseDueOutboxInput → Result (Unit {0})
lease_input_valid input = do
  refuse_if (not (opaque_owner input.owner)) invalid_owner
  refuse_if (nat_beq input.lease_seconds 0) invalid_lease_seconds
  refuse_if (nat_beq input.limit 0) invalid_limit
  refuse_if (not (leb input.limit 1000)) limit_too_large

unfoldable pub with_items : Assoc OutboxItemRecord → MemoryStore → MemoryStore
with_items items s = record s { outbox_items = items }

module _ (p : Platform) where
  -- No lease, or one that has expired.
  unfoldable pub unleased : ℕ → OutboxItemRecord → Bool
  unleased now o = elim o.lease_expires_at [ none ↦ true | some t ↦ not_after p t now ]

  unfoldable pub leasable : ℕ → OutboxItemRecord → Bool
  leasable now o = not (is_some o.dispatched_at) && not_after p o.due_at now && unleased now o

  unfoldable pub outbox_le : OutboxItemRecord → OutboxItemRecord → Bool
  outbox_le a b =
      not (p.locale_le b.due_at a.due_at)
      || (p.locale_le a.due_at b.due_at && p.locale_le a.id b.id)

  unfoldable pub due_items : ℕ → ℕ → Assoc OutboxItemRecord → List OutboxItemRecord
  due_items now limit items = take limit (sort outbox_le (filter_by (leasable now) (values items)))

  unfoldable pub leased_item : String → String → String → OutboxItemRecord → OutboxItemRecord
  leased_item owner expires_at now_iso o = record o {
    attempts = o.attempts + 1;
    lease_owner = some owner;
    lease_expires_at = some expires_at;
    updated_at = now_iso;
  }

  -- An item is written before the hook is called.
  unfoldable pub lease_one :
      Hook
      → ℕ
      → String
      → OutboxItemRecord
      → Assoc OutboxItemRecord
      → Result OutboxItemRecord × Assoc OutboxItemRecord
  lease_one hook n id changed items = elim (parse_outbox p changed) [
    | err e ↦ (err e, items)
    | ok updated ↦ (after_delivery_mutation hook n lease >> ok updated, put id updated items)
  ]

  -- The loop over the items that are due: what was leased before an error stays leased.
  unfoldable pub lease_each :
      Hook
      → ℕ
      → (OutboxItemRecord → OutboxItemRecord)
      → List OutboxItemRecord
      → Assoc OutboxItemRecord
      → Result (List OutboxItemRecord) × Assoc OutboxItemRecord
  lease_each hook n change [] items = (ok [], items)
  lease_each hook n change (o ∷ rest) items =
      and_then (lease_one hook n o.id (change o) items) (λ updated items'.
        and_then (lease_each hook (suc n) change rest items')
          (λ more items''. (ok (updated ∷ more), items'')))

  unfoldable pub lease_items :
      Hook → LeaseDueOutboxInput → String → String → MemoryStore → Outcome (List OutboxItemRecord)
  lease_items hook input now_iso expires_at s =
      let (leased, items) =
        lease_each hook 0 (leased_item input.owner expires_at now_iso)
          (due_items input.now input.limit s.outbox_items) s.outbox_items in
      (leased, with_items items s)

  unfoldable pub lease_due_outbox :
      Hook → LeaseDueOutboxInput → MemoryStore → Outcome (List OutboxItemRecord)
  lease_due_outbox hook input s =
      and_then (lease_input_valid input, s)
        (λ _ s.
          and_then (iso_of p input.now, s)
            (λ now_iso s.
              and_then (iso_of p (input.now + input.lease_seconds * 1000), s)
                (λ expires_at s. lease_items hook input now_iso expires_at s)))

  -- Not dispatched, and leased by this owner.
  unfoldable pub held_by : String → OutboxItemRecord → Bool
  held_by owner o = not (is_some o.dispatched_at) && o.lease_owner == some owner

  unfoldable pub acknowledged : String → OutboxItemRecord → OutboxItemRecord
  acknowledged now_iso o = record o {
    lease_owner = none;
    lease_expires_at = none;
    dispatched_at = some now_iso;
    updated_at = now_iso;
  }

  unfoldable pub failed_item : DiagnosticCategory → String → OutboxItemRecord → OutboxItemRecord
  failed_item category now_iso o = record o {
    lease_owner = none;
    lease_expires_at = none;
    last_diagnostic_category = some category;
    updated_at = now_iso;
  }

  -- The record after a change that sets it at the given time.
  unfoldable pub released :
      (String → OutboxItemRecord → OutboxItemRecord)
      → ℕ
      → OutboxItemRecord
      → Result OutboxItemRecord
  released change now o = do now_iso ← iso_of p now; parse_outbox p (change now_iso o)

  -- The item, where this owner holds it.
  unfoldable pub held_item : String → Option OutboxItemRecord → Option OutboxItemRecord
  unfolding held_by
  held_item owner none = none
  held_item owner (some o) = if held_by owner o then some o else none

  -- `if (!item || …) return false`
  unfoldable pub if_held :
      Option OutboxItemRecord → MemoryStore → (OutboxItemRecord → Outcome Bool) → Outcome Bool
  if_held none s next = (ok false, s)
  if_held (some o) s next = next o

  unfoldable pub acknowledge_outbox : Hook → String → String → ℕ → MemoryStore → Outcome Bool
  acknowledge_outbox hook id owner now s = if_held (held_item owner (get id s.outbox_items)) s (λ o.
      and_then (released acknowledged now o, s)
        (λ updated s. (
          after_delivery_mutation hook 0 acknowledge >> ok true,
          with_items (put id updated s.outbox_items) s,
        )))

  unfoldable pub record_outbox_failure :
      Hook → String → String → DiagnosticCategory → ℕ → MemoryStore → Outcome Bool
  record_outbox_failure hook id owner category now s =
      if_held (held_item owner (get id s.outbox_items)) s (λ o.
        and_then (released (failed_item category) now o, s)
          (λ updated s. (
            after_delivery_mutation hook 0 failure >> ok true,
            record s {
              outbox_items = put id updated s.outbox_items;
              outbox_publish_failures = s.outbox_publish_failures + 1;
            },
          )))
