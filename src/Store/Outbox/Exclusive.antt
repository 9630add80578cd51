-- ===== src/Store/Outbox/Exclusive.antt =====
-- `leaseDueOutbox` as a whole: whom a lease belongs to, and for how long.
use hayasend.Base.{
  ℕ, ◌≤◌, ◌≡◌, ◌≢◌, refl, ◌∙◌, String, true, false, some, string_eq, All, All-map, length,
  filter_by, sort-All,
}
use hayasend.Base.Assoc.{Assoc, get, values}
use hayasend.Base.Assoc.Keyed.{
  IsKeyed, AreApart, IsKeyed-get, IsKeyed-AreApart, filter_by-AreApart, sort-AreApart,
  take-AreApart, take-All, filter_by_sound, length-take_le,
}
use hayasend.Platform.{Platform}
use hayasend.Model.Records.{OutboxItemRecord}
use hayasend.Store.State.{MemoryStore, Hook, and_then-keeps}
use hayasend.Store.Outbox.{
  LeaseDueOutboxInput, with_items, leasable, outbox_le, due_items, leased_item, lease_items,
  lease_due_outbox,
}
use hayasend.Store.Outbox.Leases.{item_id, IsOutbox, lease_each-get, lease_each-IsKeyed}

module _ (p : Platform) where
  -- The items of a call are leasable, each is the one that stands under its identifier, and no two
  -- have the same.
  pub due_items-All :
      (now limit : ℕ) (items : Assoc OutboxItemRecord)
      → IsKeyed item_id items
      → All
          (λ o. (get o.id items ≡ some o) × (leasable p now o ≡ true))
          (due_items p now limit items)
  unfolding due_items
  due_items-All now limit items h = take-All item_id _ limit _ (
      sort-All (outbox_le p) _ (filter_by (leasable p now) (values items))
        (filter_by_sound _ (leasable p now) (values items) (IsKeyed-get item_id items h)))

  pub due_items-AreApart :
      (now limit : ℕ) (items : Assoc OutboxItemRecord)
      → IsKeyed item_id items
      → AreApart item_id (due_items p now limit items)
  unfolding due_items
  due_items-AreApart now limit items h = take-AreApart item_id limit _ (
      sort-AreApart item_id (outbox_le p) _ (
        filter_by-AreApart item_id (leasable p now) (values items)
          (IsKeyed-AreApart item_id items h)))

  pub due_items_le :
      (now limit : ℕ) (items : Assoc OutboxItemRecord)
      → length (due_items p now limit items) ≤ limit
  unfolding due_items
  due_items_le now limit items = length-take_le limit _

  leasable_ne :
      (now : ℕ) (items : Assoc OutboxItemRecord) (w o : OutboxItemRecord) (id : String)
      → get w.id items ≡ some w
      → leasable p now w ≡ true
      → get id items ≡ some o
      → leasable p now o ≡ false
      → w.id ≢ id
  leasable_ne now items w o id at l at' l' q = cc

  -- What the guards and the loop keep, the call keeps.
  lease_due_outbox-keeps {κ} :
      (hook : Hook) (input : LeaseDueOutboxInput) (P : MemoryStore → Type κ)
      → ((n e : String) (s : MemoryStore) → P s → P (lease_items p hook input n e s).1)
      → (s : MemoryStore) → P s
      → P (lease_due_outbox p hook input s).1
  unfolding lease_due_outbox
  lease_due_outbox-keeps hook input P loop s h =
      and_then-keeps P _ _ h
        (λ _ s h. and_then-keeps P _ _ h (λ n s h. and_then-keeps P _ _ h (λ e s h. loop n e s h)))

  pub lease_due_outbox-IsOutbox :
      (hook : Hook) (input : LeaseDueOutboxInput) (s : MemoryStore)
      → IsOutbox s
      → IsOutbox (lease_due_outbox p hook input s).1
  unfolding lease_items with_items leased_item
  lease_due_outbox-IsOutbox hook input =
      lease_due_outbox-keeps hook input IsOutbox
        (λ n e s h. lease_each-IsKeyed p hook _ (λ o. refl) 0 _ s.outbox_items h)

  -- In an outbox that holds each item once, under its identifier, and whatever the call ends with: an
  -- item that is dispatched, or not yet due, or under a lease that
  -- has not expired stays exactly as it is.
  pub lease_due_outbox_keeps_held :
      (hook : Hook) (input : LeaseDueOutboxInput) (s : MemoryStore) (id : String)
      (o : OutboxItemRecord)
      → IsOutbox s
      → get id s.outbox_items ≡ some o
      → leasable p input.now o ≡ false
      → get id (lease_due_outbox p hook input s).1.outbox_items ≡ some o
  unfolding lease_items with_items leased_item
  lease_due_outbox_keeps_held hook input s id o inv at held =
      (lease_due_outbox-keeps hook input (λ s. IsOutbox s × (get id s.outbox_items ≡ some o))
        (λ n e s h. (
          lease_each-IsKeyed p hook _ (λ o. refl) 0 _ s.outbox_items h.0,
          lease_each-get p hook _ (λ o. refl) 0 _ s.outbox_items id
                (All-map (λ w k. leasable_ne input.now s.outbox_items w o id k.0 k.1 h.1 held) _
                  (due_items-All input.now input.limit s.outbox_items h.0))
              ∙ h.1,
        ))
        s (inv, at)).1
