-- ===== src/Store/Metrics/Laws.antt =====
-- The counts of the metrics: every item that is not dispatched is counted once.
use hayasend.Base.{
  ℕ, ◌+◌, ◌≤◌, ◌≡◌, Bool, not, List, [], ◌∷◌, if◌then◌else◌, is_some, length, filter_by, arith,
  String, Option, none, some, false, ltb, refl, ◌&&◌,
}
use hayasend.Base.Assoc.{values}
use hayasend.Platform.{Platform}
use hayasend.Model.Records.{OutboxItemRecord}
use hayasend.Store.State.{MemoryStore}
use hayasend.Store.Metrics.{
  Tally, start, later_than, count_due, active_lease, count_item, count_all, get_outbox_metrics,
}

module _ (p : Platform) (now : ℕ) where
  -- Whether a time that is given lies after `now`; a text that names no time does not.
  abbrev pub comes : Option String → Bool
  comes none = false
  comes (some text) = elim (p.date_parse text) [ none ↦ false | some t ↦ ltb now t ]

  abbrev pub is_open : OutboxItemRecord → Bool
  is_open o = not (is_some o.dispatched_at)

  abbrev pub is_due : OutboxItemRecord → Bool
  is_due o = is_open o && not (comes (some o.due_at))

  -- How many items of the outbox a test holds of.
  abbrev pub count_of : (OutboxItemRecord → Bool) → MemoryStore → ℕ
  count_of q s = length (filter_by q (values s.outbox_items))

  abbrev pub waits_for_later : OutboxItemRecord → Bool
  waits_for_later o = is_open o && comes (some o.due_at)

  abbrev pub is_due_free : OutboxItemRecord → Bool
  is_due_free o = is_due o && not (comes o.lease_expires_at)

  abbrev pub is_due_leased : OutboxItemRecord → Bool
  is_due_leased o = is_due o && comes o.lease_expires_at

  -- Under a lease that has run out.
  abbrev pub is_stuck : OutboxItemRecord → Bool
  is_stuck o = is_due_free o && is_some o.lease_expires_at

  active_lease_lem : (o : OutboxItemRecord) → active_lease p now o ≡ comes o.lease_expires_at
  unfolding active_lease later_than
  active_lease_lem o = go o.lease_expires_at
    where
      parsed : (t : Option ℕ) → later_than t now ≡ elim t [ none ↦ false | some e ↦ ltb now e ]
      parsed none = refl
      parsed (some e) = refl

      go :
          (lease : Option String)
          → elim lease [ none ↦ false | some t ↦ later_than (p.date_parse t) now ] ≡ comes lease
      go none = refl
      go (some t) = parsed (p.date_parse t)

  count_item_lem :
      (o : OutboxItemRecord) (t : Tally)
      → let u = count_item p now o t in
        (u.due ≡ t.due + (if is_due_free o then 1 else 0))
        × (u.leased ≡ t.leased + (if is_due_leased o then 1 else 0))
        × (u.stuck ≡ t.stuck + (if is_stuck o then 1 else 0))
        × (u.undispatched ≡ t.undispatched + (if is_open o then 1 else 0))
  unfolding count_item count_due later_than
  count_item_lem o t = rw (active_lease_lem o) (ground arith)

  count_all_lem :
      (os : List OutboxItemRecord) (t : Tally)
      → let u = count_all p now os t in
        (u.due ≡ t.due + length (filter_by is_due_free os))
        × (u.leased ≡ t.leased + length (filter_by is_due_leased os))
        × (u.stuck ≡ t.stuck + length (filter_by is_stuck os))
        × (u.undispatched ≡ t.undispatched + length (filter_by is_open os))
  unfolding count_all
  count_all_lem [] t = ground arith
  count_all_lem (o ∷ os) t =
      ground (arith, count_item_lem o t, count_all_lem os (count_item p now o t))

  open_items_lem :
      (os : List OutboxItemRecord)
      → (length (filter_by is_due_free os)
            + length (filter_by is_due_leased os)
            + length (filter_by waits_for_later os)
          ≡ length (filter_by is_open os))
        × (length (filter_by is_stuck os) ≤ length (filter_by is_due_free os))
  open_items_lem [] = ground arith
  open_items_lem (o ∷ os) = ground (arith, open_items_lem os)

  -- The metrics count the items that are not dispatched by what they are now: `due` those that are due
  -- and under no lease that goes on, `leased` those that are due and under such a lease,
  -- `stuck_leases` those of the due ones whose lease has run out, and `undispatched` all of them, which
  -- are the due, the leased and those that come due later. A time that cannot be read does not lie
  -- ahead.
  pub get_outbox_metrics_counts :
      (s : MemoryStore)
      → let m = get_outbox_metrics p now s in
        (m.due ≡ count_of is_due_free s)
        × (m.leased ≡ count_of is_due_leased s)
        × (m.stuck_leases ≡ count_of is_stuck s)
        × (m.undispatched ≡ count_of is_open s)
        × (m.due + m.leased + count_of waits_for_later s ≡ m.undispatched)
        × (m.stuck_leases ≤ m.due)
  unfolding get_outbox_metrics start
  get_outbox_metrics_counts s =
      ground
        (arith, count_all_lem (values s.outbox_items) start, open_items_lem (values s.outbox_items))
