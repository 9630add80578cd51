-- ===== src/Store/Metrics.antt =====
-- adapters/memory-store.ts: `getOutboxMetrics`, one pass over the items of the outbox.
pub mod Laws
use hayasend.Base.{
  ℕ, ◌+◌, ◌-◌, ◌/◌, Bool, true, false, List, [], ◌∷◌, Option, none, some, leb, ltb, if◌then◌else◌,
  is_some,
}
use hayasend.Base.Assoc.{values}
use hayasend.Platform.{Platform}
use hayasend.Model.Records.{OutboxItemRecord}
use hayasend.Store.State.{MemoryStore}

-- `oldest_due_age_seconds` is NaN, which `none` stands for, where a due time does not parse. The
-- constant `truncated: false` is left out.
pub record OutboxMetrics : Type 0 where
  pub due : ℕ
  pub leased : ℕ
  pub stuck_leases : ℕ
  pub undispatched : ℕ
  pub oldest_due_age_seconds : Option ℕ
  pub publish_failures_total : ℕ

-- The variables of the loop; `oldest_due_at` is undefined before the first item that is due, and
-- its number may be NaN.
pub record Tally : Type 0 where
  pub due : ℕ
  pub leased : ℕ
  pub stuck : ℕ
  pub undispatched : ℕ
  pub oldest_due_at : Option (Option ℕ)

unfoldable pub start : Tally
start = record { due = 0; leased = 0; stuck = 0; undispatched = 0; oldest_due_at = none }

-- Math.min, of numbers that may be NaN.
unfoldable pub earlier : Option ℕ → Option ℕ → Option ℕ
earlier none b = none
earlier (some a) none = none
earlier (some a) (some b) = some (if leb a b then a else b)

unfoldable pub oldest : Option (Option ℕ) → Option ℕ → Option (Option ℕ)
unfolding earlier
oldest none t = some t
oldest (some u) t = some (earlier u t)

-- `time > now`: false on NaN.
unfoldable pub later_than : Option ℕ → ℕ → Bool
later_than none now = false
later_than (some t) now = ltb now t

module _ (p : Platform) (now : ℕ) where
  unfoldable pub active_lease : OutboxItemRecord → Bool
  unfolding later_than
  active_lease o = elim o.lease_expires_at [
    | none ↦ false
    | some t ↦ later_than (p.date_parse t) now
  ]

  -- An item that is due: it is leased, or it waits, with or without a lease that has expired.
  unfoldable pub count_due : OutboxItemRecord → Tally → Tally
  unfolding active_lease oldest
  count_due o t =
      if active_lease o
      then record t {
        leased = t.leased + 1;
        undispatched = t.undispatched + 1;
        oldest_due_at = oldest t.oldest_due_at (p.date_parse o.due_at);
      }
      else record t {
        due = t.due + 1;
        stuck = if is_some o.lease_expires_at then t.stuck + 1 else t.stuck;
        undispatched = t.undispatched + 1;
        oldest_due_at = oldest t.oldest_due_at (p.date_parse o.due_at);
      }

  unfoldable pub count_item : OutboxItemRecord → Tally → Tally
  unfolding count_due later_than
  count_item o t =
      if is_some o.dispatched_at
      then t
      else if later_than (p.date_parse o.due_at) now
      then record t { undispatched = t.undispatched + 1 }
      else count_due o t

  unfoldable pub count_all : List OutboxItemRecord → Tally → Tally
  count_all [] t = t
  count_all (o ∷ rest) t = count_all rest (count_item o t)

  -- Math.max(0, Math.floor((now - oldest) / 1000)), or 0 where no item is due.
  unfoldable pub due_age : Option (Option ℕ) → Option ℕ
  due_age none = some 0
  due_age (some none) = none
  due_age (some (some t)) = some ((now - t) / 1000)

  unfoldable pub get_outbox_metrics : MemoryStore → OutboxMetrics
  unfolding count_all due_age start
  get_outbox_metrics s =
      let t = count_all (values s.outbox_items) start in
      record {
        due = t.due;
        leased = t.leased;
        stuck_leases = t.stuck;
        undispatched = t.undispatched;
        oldest_due_age_seconds = due_age t.oldest_due_at;
        publish_failures_total = s.outbox_publish_failures;
      }
