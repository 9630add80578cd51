-- ===== src/Store/Outbox/Releases.antt =====
-- What `acknowledgeOutbox` and `recordOutboxFailure` do to a lease.
use hayasend.Base.{
  ℕ, ◌≡◌, refl, sym, ap, subst, ◌∙◌, String, Bool, true, not, some_inj, option_eq, beq→eq, beq_refl,
  and_true, none-ne-some, true-ne-false, Option, none, some, ok, >>=-eq-ok, ok_inj, string_eq,
  Bool-cases, inl, inr, arith, is_some,
}
use hayasend.Base.Assoc.{get, put, get-put}
use hayasend.Base.Assoc.Keyed.{IsKeyed, IsKeyed-key, put-IsKeyed}
use hayasend.Platform.{Platform, iso_of, not_after}
use hayasend.Model.Status.{DiagnosticCategory}
use hayasend.Model.Schemas.Laws.{parse_outbox-eq-ok}
use hayasend.Model.Records.{OutboxItemRecord}
use hayasend.Store.State.{MemoryStore, Hook, Outcome, and_then, and_then-eq-ok}
use hayasend.Store.Outbox.{
  LeaseDueOutboxInput, held_by, held_item, if_held, released, acknowledged, failed_item,
  acknowledge_outbox, record_outbox_failure, with_items, unleased, leasable, lease_due_outbox,
}
use hayasend.Store.Outbox.Leases.{item_id, IsOutbox}
use hayasend.Store.Outbox.Exclusive.{lease_due_outbox_keeps_held}

-- An answer `true` means that the caller held the item, and tells what stands in its place.
pub record Released (p : Platform) (change : String → OutboxItemRecord → OutboxItemRecord)
    (id owner : String) (now : ℕ) (before after : MemoryStore) : Type 0 where
  pub was : OutboxItemRecord
  pub now_iso : String
  pub found : get id before.outbox_items ≡ some was
  pub held : held_by p owner was ≡ true
  pub at : iso_of p now ≡ ok now_iso
  pub items : after.outbox_items ≡ put id (change now_iso was) before.outbox_items

module _ (p : Platform) (hook : Hook) (id owner : String) (now : ℕ) (s : MemoryStore) where
  released-eq-ok :
      (change : String → OutboxItemRecord → OutboxItemRecord) (o : OutboxItemRecord)
      {u : OutboxItemRecord}
      → released p change now o ≡ ok u
      → (t : String) × (iso_of p now ≡ ok t) × (change t o ≡ u)
  unfolding released
  released-eq-ok change o h =
      let (t, e, h') = >>=-eq-ok (iso_of p now) _ h in
      (t, e, (parse_outbox-eq-ok p (change t o) h').1)

  held_item-eq-some :
      (m : Option OutboxItemRecord) {o : OutboxItemRecord}
      → held_item p owner m ≡ some o
      → (m ≡ some o) × (held_by p owner o ≡ true)
  unfolding held_item
  held_item-eq-some none h = absurd (none-ne-some h)
  held_item-eq-some (some x) {o} h = elim (Bool-cases (held_by p owner x)) [
    | inl t ↦
        let same : x ≡ o = some_inj (rw t at h) in
        (ap some same, subst (λ y. held_by p owner y ≡ true) same t)
    | inr f ↦ absurd (none-ne-some (rw f at h))
  ]

  if_held-eq-true :
      (m : Option OutboxItemRecord) (next : OutboxItemRecord → Outcome Bool)
      → (if_held p m s next).0 ≡ ok true
      → (o : OutboxItemRecord) × (m ≡ some o)
        × ((next o).0 ≡ ok true)
        × ((if_held p m s next).1 ≡ (next o).1)
  unfolding if_held
  if_held-eq-true none next h = absurd (true-ne-false (sym (ok_inj h)))
  if_held-eq-true (some o) next h = (o, refl, h, refl)

  -- The shape that both operations have.
  release_lem :
      (change : String → OutboxItemRecord → OutboxItemRecord)
      (write : OutboxItemRecord → MemoryStore → Outcome Bool)
      → ((u : OutboxItemRecord) → (write u s).1.outbox_items ≡ put id u s.outbox_items)
      → let after =
          if_held p
            (held_item p owner (get id s.outbox_items))
            s
            (λ o. and_then (released p change now o, s) write) in
        after.0 ≡ ok true → Released p change id owner now s after.1
  release_lem change write items h =
      let (o, e, h1, after) = if_held-eq-true (held_item p owner (get id s.outbox_items)) _ h in
      let (u, r, h2, after') = and_then-eq-ok (released p change now o, s) write h1 in
      let (found, held) = held_item-eq-some (get id s.outbox_items) e in
      let (t, at, u_is) = released-eq-ok change o r in
      record {
        was = o;
        now_iso = t;
        found = found;
        held = held;
        at = at;
        items =
            ap (λ (x : MemoryStore). x.outbox_items) (after ∙ after')
            ∙ items u
            ∙ ap (λ x. put id x s.outbox_items) (sym u_is);
      }

  pub acknowledge_outbox-eq-true :
      (acknowledge_outbox p hook id owner now s).0 ≡ ok true
      → Released p (acknowledged p) id owner now s (acknowledge_outbox p hook id owner now s).1
  unfolding acknowledge_outbox with_items
  acknowledge_outbox-eq-true h = release_lem (acknowledged p) _ (λ u. refl) h

  pub record_outbox_failure-eq-true :
      (category : DiagnosticCategory)
      → (record_outbox_failure p hook id owner category now s).0 ≡ ok true
      → Released p
          (failed_item p category)
          id
          owner
          now
          s
          (record_outbox_failure p hook id owner category now s).1
  unfolding record_outbox_failure
  record_outbox_failure-eq-true category h = release_lem (failed_item p category) _ (λ u. refl) h

-- A change that keeps the identifier leaves an outbox.
pub Released-stored :
    (p : Platform) (change : String → OutboxItemRecord → OutboxItemRecord)
    → ((t : String) (o : OutboxItemRecord) → o.id ≡ (change t o).id)
    → {id owner : String} {now : ℕ} {s after : MemoryStore} → IsOutbox s
    → (r : Released p change id owner now s after)
    → IsOutbox after × (get id after.outbox_items ≡ some (change r.now_iso r.was))
Released-stored p change same {id} {s = s} inv r = (
  subst (IsKeyed item_id) (sym r.items) (
      put-IsKeyed item_id id _ s.outbox_items
        (IsKeyed-key item_id id r.was s.outbox_items inv r.found ∙ same r.now_iso r.was) inv),
  ap (get id) r.items ∙ get-put id id _ s.outbox_items ∙ rw (beq_refl id) refl,
)

-- In an outbox that holds each item once, under its identifier, an acknowledgement is final: it succeeds only for the owner of the lease, and the item is then
-- dispatched at its time, with no lease, and no call of `leaseDueOutbox` changes it again.
pub acknowledgement_is_final :
    (p : Platform) (hook hook' : Hook) (id owner : String) (now : ℕ) (s : MemoryStore)
    (input : LeaseDueOutboxInput)
    → IsOutbox s
    → (acknowledge_outbox p hook id owner now s).0 ≡ ok true
    → (was item : OutboxItemRecord) × (get id s.outbox_items ≡ some was)
      × (was.lease_owner ≡ some owner)
      × (get id
            (lease_due_outbox p hook' input
              (acknowledge_outbox p hook id owner now s).1).1.outbox_items
          ≡ some item)
      × (now_iso : String) × (iso_of p now ≡ ok now_iso)
      × (item.dispatched_at ≡ some now_iso)
      × (item.lease_owner ≡ none)
unfolding acknowledged leasable held_by
acknowledgement_is_final p hook hook' id owner now s input inv h =
    let r = acknowledge_outbox-eq-true p hook id owner now s h in
    let (inv', at) = Released-stored p (acknowledged p) (λ t o. refl) inv r in
    (
      r.was,
      acknowledged p r.now_iso r.was,
      r.found,
      beq→eq _ _ (and_true _ _ r.held).1,
      lease_due_outbox_keeps_held p hook' input _ id _ inv' at refl,
      r.now_iso,
      r.at,
      refl,
      refl,
    )

-- In an outbox that holds each item once, under its identifier, a failure gives the item back: it succeeds only for the owner of the lease, and at every later
-- time at which the item is due, it can be leased.
pub failure_frees_the_item :
    (p : Platform) (hook : Hook) (id owner : String) (category : DiagnosticCategory) (now later : ℕ)
    (s : MemoryStore)
    → IsOutbox s
    → (record_outbox_failure p hook id owner category now s).0 ≡ ok true
    → (was item : OutboxItemRecord) × (get id s.outbox_items ≡ some was)
      × (was.lease_owner ≡ some owner)
      × (get id (record_outbox_failure p hook id owner category now s).1.outbox_items ≡ some item)
      × (item.last_diagnostic_category ≡ some category)
      × (leasable p later item ≡ not_after p was.due_at later)
unfolding failed_item leasable held_by unleased
failure_frees_the_item p hook id owner category now later s inv h =
    let r = record_outbox_failure-eq-true p hook id owner now s category h in
    let (_, at) = Released-stored p (failed_item p category) (λ t o. refl) inv r in
    let (free, mine) = and_true (not (is_some r.was.dispatched_at)) _ r.held in
    (
      r.was,
      failed_item p category r.now_iso r.was,
      r.found,
      beq→eq _ _ mine,
      at,
      refl,
      ground (arith, free),
    )
