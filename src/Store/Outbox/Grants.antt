-- ===== src/Store/Outbox/Grants.antt =====
-- The items that `leaseDueOutbox` gives to an owner.
use hayasend.Base.{
  ℕ, ◌+◌, ◌*◌, ◌≤◌, ◌<◌, ◌≡◌, ◌≢◌, refl, sym, ap, subst, ◌∙◌, String, true, false, some_inj,
  true-ne-false, List, some, ok, ok_inj, string_eq, All, All-map, All-of_map, length-map, All-pair,
  length, Bool-cases, inl, inr, err-ne-ok, arith, leb,
}
use hayasend.Base.Assoc.{get}
use hayasend.Platform.{Platform, IsLawful, year_10000, iso_of, max_date, not_after}
use hayasend.Model.Records.{OutboxItemRecord}
use hayasend.Store.State.{MemoryStore, Hook, and_then-eq-ok}
use hayasend.Store.Outbox.{
  LeaseDueOutboxInput, with_items, unleased, leasable, due_items, leased_item, lease_items,
  lease_due_outbox,
}
use hayasend.Store.Outbox.Leases.{IsOutbox, lease_each-eq-ok}
use hayasend.Store.Outbox.Exclusive.{
  due_items_le, due_items-All, due_items-AreApart, lease_due_outbox-IsOutbox,
}

-- An item that was leasable, and that now stands in the outbox with this owner, the end of the
-- lease and one more attempt.
pub record Granted (p : Platform) (input : LeaseDueOutboxInput) (before after : MemoryStore)
    (expires_at : String) (u : OutboxItemRecord) : Type 0 where
  pub stored : get u.id after.outbox_items ≡ some u
  pub owner : u.lease_owner ≡ some input.owner
  pub expiry : u.lease_expires_at ≡ some expires_at
  pub was : OutboxItemRecord
  pub found : get u.id before.outbox_items ≡ some was
  pub was_leasable : leasable p input.now was ≡ true
  pub attempts : u.attempts ≡ was.attempts + 1

module _ (p : Platform) (hook : Hook) (input : LeaseDueOutboxInput) (s : MemoryStore) where
  lease_items_grants :
      (now_iso expires_at : String) {leased : List OutboxItemRecord}
      → IsOutbox s
      → (lease_items p hook input now_iso expires_at s).0 ≡ ok leased
      → (length leased ≤ input.limit)
        × All
            (Granted p input s (lease_items p hook input now_iso expires_at s).1 expires_at)
            leased
  unfolding lease_items with_items leased_item
  lease_items_grants now_iso expires_at inv h =
      let change = leased_item p input.owner expires_at now_iso in
      let due = due_items p input.now input.limit s.outbox_items in
      let (mapped, stored) =
        lease_each-eq-ok p hook change (λ o. refl) 0 due s.outbox_items
          (due_items-AreApart p input.now input.limit s.outbox_items inv) h in
      let facts = All-pair _ _ _ stored (
        subst (All _) (sym mapped) (
          All-of_map
            (λ u.
              (u.lease_owner ≡ some input.owner)
              × (u.lease_expires_at ≡ some expires_at)
              × (o : OutboxItemRecord) × (get u.id s.outbox_items ≡ some o)
              × (leasable p input.now o ≡ true)
              × (u.attempts ≡ o.attempts + 1))
            change due
            (All-map (λ o k. (refl, refl, o, k.0, k.1, refl)) due
              (due_items-All p input.now input.limit s.outbox_items inv)))) in
      (
        rw (mapped, length-map change due) (due_items_le p input.now input.limit s.outbox_items),
        All-map
            (λ u (st, (ow, ex, o, fo, le, at)). record {
              stored = st;
              owner = ow;
              expiry = ex;
              was = o;
              found = fo;
              was_leasable = le;
              attempts = at;
            })
            _ facts,
      )

  -- In an outbox that holds each item once, under its identifier, a call without an error leases at most `limit` items. Each was leasable, and now stands in the
  -- outbox with this owner, the end of the lease, and one more attempt.
  pub lease_due_outbox_grants :
      {leased : List OutboxItemRecord}
      → IsOutbox s
      → (lease_due_outbox p hook input s).0 ≡ ok leased
      → (expires_at : String) × (iso_of p (input.now + input.lease_seconds * 1000) ≡ ok expires_at)
        × (length leased ≤ input.limit)
        × All (Granted p input s (lease_due_outbox p hook input s).1 expires_at) leased
  unfolding lease_due_outbox
  lease_due_outbox_grants {leased} inv h =
      let (_, _, h1, e1) = and_then-eq-ok _ _ h in
      let (now_iso, _, h2, e2) = and_then-eq-ok _ _ h1 in
      let (expires_at, expiry, h3, e3) = and_then-eq-ok _ _ h2 in
      let (le, all) = lease_items_grants now_iso expires_at inv h3 in
      (
        expires_at,
        expiry,
        le,
        subst (λ t. All (Granted p input s t expires_at) leased) (sym (e1 ∙ e2 ∙ e3)) all,
      )

-- An item is not leasable before its lease ends.
leased_not_leasable :
    (p : Platform) (end now : ℕ) (expires_at : String) (u : OutboxItemRecord)
    → IsLawful p
    → end < year_10000
    → now < end
    → iso_of p end ≡ ok expires_at
    → u.lease_expires_at ≡ some expires_at
    → leasable p now u ≡ false
unfolding iso_of leasable unleased not_after
leased_not_leasable p end now expires_at u lawful le lt e x = elim (Bool-cases (leb end max_date)) [
  | inl t ↦
      let parsed : p.date_parse expires_at ≡ some end =
        subst (λ y. p.date_parse y ≡ some end) (ok_inj (rw t at e))
          (lawful.parse-iso_string end le) in
      let unexpired : unleased p now u ≡ false =
        rw (unleased, x, not_after, parsed) (ground arith) in
      rw unexpired (ground arith)
  | inr f ↦ absurd (err-ne-ok (rw f at e))
]

-- On a platform whose written times read back up to the year 9999, for leases that end before then,
-- and in an outbox that holds each item once, under its identifier: while a lease lasts, no call gives its item to anyone: a second call, by any owner, before the
-- end of the leases that a first call has granted, returns none of the items of the first.
pub leases_are_exclusive :
    (p : Platform) (hook hook' : Hook) (input input' : LeaseDueOutboxInput) (s : MemoryStore)
    {leased leased' : List OutboxItemRecord}
    → IsLawful p
    → IsOutbox s
    → input.now + input.lease_seconds * 1000 < year_10000
    → input'.now < input.now + input.lease_seconds * 1000
    → (lease_due_outbox p hook input s).0 ≡ ok leased
    → (lease_due_outbox p hook' input' (lease_due_outbox p hook input s).1).0 ≡ ok leased'
    → All (λ u. All (λ v. v.id ≢ u.id) leased') leased
leases_are_exclusive p hook hook' input input' s {leased} {leased'} lawful inv year early h h' =
    let s1 = (lease_due_outbox p hook input s).1 in
    let (expires_at, e, _, granted) = lease_due_outbox_grants p hook input s inv h in
    let (_, _, _, granted') =
      lease_due_outbox_grants p hook' input' s1 (lease_due_outbox-IsOutbox p hook input s inv) h' in
    All-map
      (λ u (g : Granted p input s s1 expires_at u).
        let shut =
          leased_not_leasable p (input.now + input.lease_seconds * 1000) input'.now expires_at u
            lawful year early e g.expiry in
        All-map
          (λ v g' q. absurd (
            true-ne-false (
              sym g'.was_leasable
              ∙ ap (leasable p input'.now)
                  (some_inj (sym g'.found ∙ ap (λ i. get i s1.outbox_items) q ∙ g.stored))
              ∙ shut)))
          leased' granted')
      leased granted
