-- ===== src/Store/Outbox/Leases.antt =====
-- What a call of `leaseDueOutbox` leaves in the outbox, whether it ends with an error or not.
use hayasend.Base.{
  ℕ, suc, ◌≡◌, ◌≢◌, refl, sym, ap, subst, ◌∙◌, String, List, [], ◌∷◌, some, Result, ok, err,
  >>=-eq-ok, ok_inj, string_eq, beq_ne, beq_refl, ap₂, All, All-of, All-map, map, ◌⊎◌, inl, inr,
  err-ne-ok,
}
use hayasend.Base.Assoc.{Assoc, get, put, get-put}
use hayasend.Base.Assoc.Keyed.{IsKeyed, AreApart, put-IsKeyed}
use hayasend.Platform.{Platform}
use hayasend.Model.Records.{OutboxItemRecord}
use hayasend.Model.Schemas.{parse_outbox}
use hayasend.Model.Schemas.Laws.{parse_outbox-eq-ok}
use hayasend.Store.State.{
  MemoryStore, Hook, and_then-keeps, and_then-eq-ok, lease, after_delivery_mutation,
}
use hayasend.Store.Outbox.{lease_one, lease_each}

abbrev pub item_id : OutboxItemRecord → String
item_id o = o.id

-- Every item stands in the outbox once, under its identifier.
abbrev pub IsOutbox : MemoryStore → Type 0
IsOutbox s = IsKeyed item_id s.outbox_items

module _ (p : Platform) (hook : Hook) where
  lease_one-cases :
      (n : ℕ) (id : String) (changed : OutboxItemRecord) (items : Assoc OutboxItemRecord)
      → let after = lease_one p hook n id changed items in
        (after.1 ≡ items) ⊎ (after.1 ≡ put id changed items)
  unfolding lease_one
  lease_one-cases n id changed items = go (parse_outbox p changed) refl
    where
      go :
          (r : Result OutboxItemRecord)
          → parse_outbox p changed ≡ r
          → let after = lease_one p hook n id changed items in
            (after.1 ≡ items) ⊎ (after.1 ≡ put id changed items)
      go (err e) q = inl (rw (lease_one, q) refl)
      go (ok u) q =
          let (_, same) = parse_outbox-eq-ok p changed q in
          inr (rw (lease_one, q) (ap (λ x. put id x items) (sym same)))

  lease_one-eq-ok :
      (n : ℕ) (id : String) (changed : OutboxItemRecord) (items : Assoc OutboxItemRecord)
      {u : OutboxItemRecord}
      → (lease_one p hook n id changed items).0 ≡ ok u
      → (changed ≡ u) × ((lease_one p hook n id changed items).1 ≡ put id u items)
  unfolding lease_one
  lease_one-eq-ok n id changed items {u} h = go (parse_outbox p changed) refl
    where
      go :
          (r : Result OutboxItemRecord)
          → parse_outbox p changed ≡ r
          → (changed ≡ u) × ((lease_one p hook n id changed items).1 ≡ put id u items)
      go (err e) q = absurd (err-ne-ok (rw (lease_one, q) at h))
      go (ok v) q =
          let (_, same) = parse_outbox-eq-ok p changed q in
          let (_, _, v_u) =
            >>=-eq-ok (after_delivery_mutation hook n lease) _ (rw (lease_one, q) at h) in
          (same ∙ ok_inj v_u, rw (lease_one, q) (ap (λ x. put id x items) (ok_inj v_u)))

  -- A step that is kept by every write of a leased item is kept by the loop.
  lease_each-keeps {κ} :
      (change : OutboxItemRecord → OutboxItemRecord) (P : Assoc OutboxItemRecord → Type κ)
      (Q : OutboxItemRecord → Type 0)
      → ((o : OutboxItemRecord) (m : Assoc OutboxItemRecord)
          → Q o
          → P m
          → P (put o.id (change o) m))
      → (n : ℕ) (os : List OutboxItemRecord) (items : Assoc OutboxItemRecord) → All Q os
      → P items
      → P (lease_each p hook n change os items).1
  unfolding lease_each
  lease_each-keeps change P Q put_keeps n [] items q h = h
  lease_each-keeps change P Q put_keeps n (o ∷ os) items q h =
      and_then-keeps P (lease_one p hook n o.id (change o) items) _
        (elim (lease_one-cases n o.id (change o) items) [
          | inl e ↦ subst P (sym e) h
          | inr e ↦ subst P (sym e) (put_keeps o items q.0 h)
        ])
        (λ u m k.
          and_then-keeps P (lease_each p hook (suc n) change os m) _
            (lease_each-keeps change P Q put_keeps (suc n) os m q.1 k) (λ _ _ w. w))

-- The items of the loop, after a change that keeps the identifier.
module _ (p : Platform) (hook : Hook) (change : OutboxItemRecord → OutboxItemRecord)
    (same_id : (o : OutboxItemRecord) → o.id ≡ (change o).id) where
  pub lease_each-get :
      (n : ℕ) (os : List OutboxItemRecord) (items : Assoc OutboxItemRecord) (id : String)
      → All (λ o. o.id ≢ id) os
      → get id (lease_each p hook n change os items).1 ≡ get id items
  lease_each-get n os items id h =
      lease_each-keeps p hook change (λ m. get id m ≡ get id items) (λ o. o.id ≢ id)
        (λ o m ne e. get-put o.id id (change o) m ∙ rw (beq_ne o.id id ne) e) n os items h refl

  pub lease_each-IsKeyed :
      (n : ℕ) (os : List OutboxItemRecord) (items : Assoc OutboxItemRecord)
      → IsKeyed item_id items
      → IsKeyed item_id (lease_each p hook n change os items).1
  lease_each-IsKeyed n os items h =
      lease_each-keeps p hook change (IsKeyed item_id) (λ o. Unit)
        (λ o m _ k. put-IsKeyed item_id o.id (change o) m (same_id o) k) n os items
        (All-of (λ o. tt) os) h

  -- A loop without an error gives the changed items, and each is in the outbox.
  pub lease_each-eq-ok :
      (n : ℕ) (os : List OutboxItemRecord) (items : Assoc OutboxItemRecord)
      {us : List OutboxItemRecord}
      → AreApart item_id os
      → (lease_each p hook n change os items).0 ≡ ok us
      → (us ≡ map change os)
        × All (λ u. get u.id (lease_each p hook n change os items).1 ≡ some u) us
  unfolding lease_each AreApart
  lease_each-eq-ok n [] items apart h =
      subst (λ us. (us ≡ []) × All (λ u. get u.id items ≡ some u) us) (ok_inj h) (refl, tt)
  lease_each-eq-ok n (o ∷ os) items {us} apart h =
      let (u, e, h1, after) = and_then-eq-ok (lease_one p hook n o.id (change o) items) _ h in
      let (same, stored) = lease_one-eq-ok p hook n o.id (change o) items e in
      let rest = lease_each p hook (suc n) change os (lease_one p hook n o.id (change o) items).1 in
      let (more, f, h2, after') = and_then-eq-ok rest _ h1 in
      let (mapped, found) = lease_each-eq-ok (suc n) os _ apart.1 f in
      let kept =
        lease_each-get (suc n) os (lease_one p hook n o.id (change o) items).1 o.id
          (All-map (λ w ne q. ne (sym q)) os apart.0) in
      let id_of_u : o.id ≡ u.id = same_id o ∙ ap item_id same in
      let end = after ∙ after' in
      let found_u : get u.id rest.1 ≡ some u =
        subst (λ i. get i rest.1 ≡ some u) id_of_u
          (kept ∙ ap (get o.id) stored ∙ get-put o.id o.id u items ∙ rw (beq_refl o.id) refl) in
      subst
        (λ xs.
          (xs ≡ map change (o ∷ os))
          × All (λ x. get x.id (lease_each p hook n change (o ∷ os) items).1 ≡ some x) xs)
        (ok_inj h2)
        (
          ap₂ ◌∷◌ (sym same) mapped,
          (ap (get u.id) end ∙ found_u, All-map (λ x e'. ap (get x.id) end ∙ e') more found),
        )
