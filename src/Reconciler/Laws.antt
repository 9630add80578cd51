-- ===== src/Reconciler/Laws.antt =====
-- What a sweep does with each leased item.
use hayasend.Reconciler.Handling.{Sweeps, dispatch_each-Sweeps}
use hayasend.Base.{
  ℕ, suc, ◌+◌, ◌≤◌, ◌≡◌, refl, sym, subst, String, Bool, true, false, List, [], ◌∷◌, Result, ok,
  err, length, arith, >>=-eq-ok, ok_inj, err-ne-ok, Option-cases, Bool-cases, inl, inr,
}
use hayasend.Model.Records.{OutboxItemRecord}
use hayasend.Reconciler.{
  SendEmailJob, DeliveryOutboxStore, Environment, Progress, OutboxSweepResult, begin, job_of,
  count_dispatched, and_then, published, refused, dispatch_item, dispatch_each, sweep_result,
  sweep_leased, sweep,
}

abbrev pub Counts : Progress → Progress → ℕ → Type 0
Counts g g' n =
    (length g'.queued + g'.failed ≡ length g.queued + g.failed + n)
    × (g'.dispatched + length g.queued ≤ g.dispatched + length g'.queued)

count_dispatched_lem {ℓ} :
    {S : Type ℓ} (g : Progress) (answer : Result Bool) (s : S) {g' : Progress}
    → (count_dispatched g (answer, s)).0 ≡ ok g'
    → (g'.queued ≡ g.queued) × (g'.failed ≡ g.failed) × (g'.dispatched ≤ g.dispatched + 1)
unfolding count_dispatched
count_dispatched_lem g (err e) s h = cc
count_dispatched_lem g (ok true) s h =
    subst (λ x. (x.queued ≡ g.queued) × (x.failed ≡ g.failed) × (x.dispatched ≤ g.dispatched + 1))
      (ok_inj h) (refl, refl, omega arith)
count_dispatched_lem g (ok false) s h =
    subst (λ x. (x.queued ≡ g.queued) × (x.failed ≡ g.failed) × (x.dispatched ≤ g.dispatched + 1))
      (ok_inj h) (refl, refl, omega arith)

and_then-eq-ok {ℓ} :
    {S : Type ℓ} (next : Progress → S → Result Progress × (Progress × S))
    (m : Result Progress × (Progress × S)) {g : Progress}
    → (and_then next m).0 ≡ ok g
    → (x : Progress) × (m.0 ≡ ok x) × ((next x m.1.1).0 ≡ ok g)
unfolding and_then
and_then-eq-ok next (err e, reached) h = absurd (err-ne-ok h)
and_then-eq-ok next (ok x, reached) h = (x, refl, h)

module _ {S : Type 0} (store : DeliveryOutboxStore S) (env : Environment) (owner : String)
    (now : ℕ) where
  published_lem :
      (n : ℕ) (o : OutboxItemRecord) (g : Progress) (s : S) {g' : Progress}
      → (published store env owner now n o g s).0 ≡ ok g'
      → Counts g g' 1
  unfolding published
  published_lem n o g s h = elim (Bool-cases (env.after_publish n o)) [
    | inl e ↦ absurd (err-ne-ok (rw e at h))
    | inr e ↦
        let g1 : Progress = record g { queued = job_of o ∷ g.queued } in
        let c = store.acknowledge o.id owner now s in
        let (q, f, d) = count_dispatched_lem g1 c.0 c.1 (rw e at h) in
        (rw (q, f) (omega arith), rw q (omega arith))
  ]

  dispatch_item_lem :
      (n : ℕ) (o : OutboxItemRecord) (g : Progress) (s : S) {g' : Progress}
      → (dispatch_item store env owner now n o g s).0 ≡ ok g'
      → Counts g g' 1
  unfolding dispatch_item refused
  dispatch_item_lem n o g s h = elim (Option-cases (env.enqueue n (job_of o))) [
    | inl e ↦ published_lem n o g s (rw (dispatch_item, e) at h)
    | inr (c, e) ↦
        let (_, _, h') =
          >>=-eq-ok (store.record_failure o.id owner c now s).0 _
            (rw (dispatch_item, e, refused) at h) in
        subst (λ x. Counts g x 1) (ok_inj h') (omega arith, omega arith)
  ]

  Counts-trans :
      (g g' g'' : Progress) (n : ℕ) → Counts g g' 1 → Counts g' g'' n → Counts g g'' (suc n)
  Counts-trans g g' g'' n h k = ground arith

  dispatch_each_lem :
      (n : ℕ) (os : List OutboxItemRecord) (g : Progress) (s : S) {g' : Progress}
      → (dispatch_each store env owner now n os g s).0 ≡ ok g'
      → Counts g g' (length os)
  unfolding dispatch_each
  dispatch_each_lem n [] g s h = subst (λ x. Counts g x 0) (ok_inj h) (omega arith, omega arith)
  dispatch_each_lem n (o ∷ os) g s {g'} h =
      let (x, d, k) = and_then-eq-ok _ (dispatch_item store env owner now n o g s) h in
      Counts-trans g x g' (length os) (dispatch_item_lem n o g s d)
        (dispatch_each_lem (suc n) os x _ k)

  -- The progress that a loop without an error gives is what it has reached.
  dispatch_each_end :
      (n : ℕ) (os : List OutboxItemRecord) (g : Progress) (s : S) {g' : Progress}
      → (dispatch_each store env owner now n os g s).0 ≡ ok g'
      → (dispatch_each store env owner now n os g s).1.0 ≡ g'
  unfolding dispatch_each and_then
  dispatch_each_end n [] g s h = ok_inj h
  dispatch_each_end n (o ∷ os) g s {g'} h =
      go (dispatch_item store env owner now n o g s) (λ x s'. dispatch_each_end (suc n) os x s') h
    where
      go :
          (m : Result Progress × (Progress × S))
          → ((x : Progress) (s' : S)
              → (dispatch_each store env owner now (suc n) os x s').0 ≡ ok g'
              → (dispatch_each store env owner now (suc n) os x s').1.0 ≡ g')
          → (and_then (dispatch_each store env owner now (suc n) os) m).0 ≡ ok g'
          → (and_then (dispatch_each store env owner now (suc n) os) m).1.0 ≡ g'
      go (err e, reached) ih k = absurd (err-ne-ok k)
      go (ok x, (_, s')) ih k = ih x s' k

  sweep_result_lem :
      (n : ℕ) (m : Result Progress) {r : OutboxSweepResult}
      → sweep_result store env owner now n m ≡ ok r
      → (g : Progress) × (m ≡ ok g)
        × (record { leased = n; dispatched = g.dispatched; failed = g.failed } ≡ r)
  unfolding sweep_result
  sweep_result_lem n (err e) h = absurd (err-ne-ok h)
  sweep_result_lem n (ok g) h = (g, refl, ok_inj h)

  -- A sweep from a store: the items that it leases, and what it does with each of them.
  abbrev pub SweepReport :
      Result (List OutboxItemRecord) × S
      → OutboxSweepResult
      → Result OutboxSweepResult × (List SendEmailJob × S)
      → Type 0
  SweepReport lease r out =
      (leased : List OutboxItemRecord) × (lease.0 ≡ ok leased)
      × (r.leased ≡ length leased)
      × (length out.1.0 + r.failed ≡ r.leased)
      × (r.dispatched ≤ length out.1.0)
      × Sweeps store env owner now 0 leased (record { dispatched = 0; failed = 0; queued = [] })
          lease.1 (record { dispatched = r.dispatched; failed = r.failed; queued = out.1.0 })
          out.1.1

  sweep_leased_lem :
      (m : Result (List OutboxItemRecord) × S) {r : OutboxSweepResult}
      → (sweep_leased store env owner now m).0 ≡ ok r
      → SweepReport m r (sweep_leased store env owner now m)
  unfolding sweep_leased begin
  sweep_leased_lem (err e, s) h = absurd (err-ne-ok h)
  sweep_leased_lem (ok leased, s) h =
      let (g', e, f) = sweep_result_lem (length leased) _ h in
      let c = dispatch_each_lem 0 leased begin s e in
      let end = dispatch_each_end 0 leased begin s e in
      let (all, some_of, each) =
        subst
          (λ (x : Progress).
            (length x.queued + g'.failed ≡ length leased)
            × (g'.dispatched ≤ length x.queued)
            × Sweeps store env owner now 0 leased begin s
                (record { dispatched = g'.dispatched; failed = g'.failed; queued = x.queued })
                (dispatch_each store env owner now 0 leased begin s).1.1)
          (sym end)
          (
            omega (arith, c),
            omega (arith, c),
            dispatch_each-Sweeps store env owner now 0 leased begin s e,
          ) in
      subst (λ x. SweepReport (ok leased, s) x (sweep_leased store env owner now (ok leased, s))) f
        (leased, refl, refl, all, some_of, each)

  -- A sweep that ends without an error goes through the items that the store has leased to it in
  -- their order, each on the store that the one before has left: the queue takes the job of an item,
  -- with its message and its own identifier, and the store then acknowledges the item, which counts
  -- as dispatched if the store says so; or the queue refuses it, and the store records the failure
  -- with the category of the queue's error, which counts as failed. The result counts the leased
  -- items, each of which is either queued or failed, and no more dispatched ones than queued ones.
  pub sweep_accounts_for_all :
      (lease_seconds batch_size : ℕ) (s : S) {r : OutboxSweepResult}
      → (sweep store env owner now lease_seconds batch_size s).0 ≡ ok r
      → SweepReport
          (store.lease_due
            (record { owner = owner; now = now; lease_seconds = lease_seconds; limit = batch_size })
            s)
          r
          (sweep store env owner now lease_seconds batch_size s)
  unfolding sweep
  sweep_accounts_for_all l b s h = sweep_leased_lem _ h
