-- ===== src/Reconciler/Handling.antt =====
-- What a sweep does with each leased item, one after the other.
use hayasend.Base.{
  ℕ, suc, ◌+◌, ◌≡◌, refl, subst, String, Bool, true, false, List, [], ◌∷◌, Result, ok, err, none,
  some, ◌>>=◌, if◌then◌else◌, ok_inj, err-ne-ok, Option-cases, Bool-cases, inl, inr,
}
use hayasend.Model.Status.{DiagnosticCategory}
use hayasend.Model.Records.{OutboxItemRecord}
use hayasend.Reconciler.{
  DeliveryOutboxStore, Environment, Progress, job_of, count_dispatched, and_then, published,
  refused, dispatch_item, dispatch_each,
}

module _ {S : Type 0} (store : DeliveryOutboxStore S) (env : Environment) (owner : String)
    (now : ℕ) where
  -- What one item comes to: the queue has taken its job and the store is told that it is dispatched,
  -- or the queue has refused the job and the store is told why.
  pub data Handled (n : ℕ) (o : OutboxItemRecord) (g : Progress) (s : S)
      : Progress → S → Type 0 where
    queued :
        {b : Bool} {s' : S}
        → env.enqueue n (record { email_id = o.message_id; job_id = o.id }) ≡ none
        → env.after_publish n o ≡ false
        → store.acknowledge o.id owner now s ≡ (ok b, s')
        → Handled n o g s
            (record {
              queued = record { email_id = o.message_id; job_id = o.id } ∷ g.queued;
              failed = g.failed;
              dispatched = if b then g.dispatched + 1 else g.dispatched;
            })
            s'
    failed :
        {b : Bool} {c : DiagnosticCategory} {s' : S}
        → env.enqueue n (record { email_id = o.message_id; job_id = o.id }) ≡ some c
        → store.record_failure o.id owner c now s ≡ (ok b, s')
        → Handled n o g s
            (record { queued = g.queued; failed = g.failed + 1; dispatched = g.dispatched })
            s'

  -- The items one after the other, from the store that the item before has left.
  pub data Sweeps : ℕ → List OutboxItemRecord → Progress → S → Progress → S → Type 0 where
    done : {n : ℕ} {g : Progress} {s : S} → Sweeps n [] g s g s
    next :
        {n : ℕ} {o : OutboxItemRecord} {os : List OutboxItemRecord} {g g1 g2 : Progress}
        {s s1 s2 : S}
        → Handled n o g s g1 s1
        → Sweeps (suc n) os g1 s1 g2 s2
        → Sweeps n (o ∷ os) g s g2 s2

  published-Handled :
      (n : ℕ) (o : OutboxItemRecord) (g : Progress) (s : S) {x : Progress}
      → env.enqueue n (job_of o) ≡ none
      → (published store env owner now n o g s).0 ≡ ok x
      → Handled n o g s x (published store env owner now n o g s).1.1
  unfolding published count_dispatched job_of
  published-Handled n o g s {x} free h = elim (Bool-cases (env.after_publish n o)) [
    | inl e ↦ absurd (err-ne-ok (rw e at h))
    | inr e ↦ rw e (counted e (store.acknowledge o.id owner now s) refl (rw e at h))
  ]
    where
      counted :
          env.after_publish n o ≡ false
          → (c : Result Bool × S) → store.acknowledge o.id owner now s ≡ c
          → (count_dispatched (record g { queued = job_of o ∷ g.queued }) c).0 ≡ ok x
          → Handled n o g s x (count_dispatched (record g { queued = job_of o ∷ g.queued }) c).1.1
      counted quiet (err e, s') is k = absurd (err-ne-ok k)
      counted quiet (ok true, s') is k =
          subst (λ y. Handled n o g s y s') (ok_inj k) (queued free quiet is)
      counted quiet (ok false, s') is k =
          subst (λ y. Handled n o g s y s') (ok_inj k) (queued free quiet is)

  refused-Handled :
      (n : ℕ) (o : OutboxItemRecord) (c : DiagnosticCategory) (g : Progress) (s : S) {x : Progress}
      → env.enqueue n (job_of o) ≡ some c
      → (refused store env owner now o c g s).0 ≡ ok x
      → Handled n o g s x (refused store env owner now o c g s).1.1
  unfolding refused job_of
  refused-Handled n o c g s {x} full h = recorded (store.record_failure o.id owner c now s) refl h
    where
      recorded :
          (m : Result Bool × S)
          → store.record_failure o.id owner c now s ≡ m
          → (m.0 >>= λ _. ok (record g { failed = g.failed + 1 })) ≡ ok x
          → Handled n o g s x m.1
      recorded (err e, s') is k = absurd (err-ne-ok k)
      recorded (ok b, s') is k = subst (λ y. Handled n o g s y s') (ok_inj k) (failed full is)

  dispatch_item-Handled :
      (n : ℕ) (o : OutboxItemRecord) (g : Progress) (s : S) {x : Progress}
      → (dispatch_item store env owner now n o g s).0 ≡ ok x
      → Handled n o g s x (dispatch_item store env owner now n o g s).1.1
  unfolding dispatch_item
  dispatch_item-Handled n o g s h = elim (Option-cases (env.enqueue n (job_of o))) [
    | inl e ↦ rw (dispatch_item, e) (published-Handled n o g s e (rw (dispatch_item, e) at h))
    | inr (c, e) ↦ rw (dispatch_item, e) (refused-Handled n o c g s e (rw (dispatch_item, e) at h))
  ]

  pub dispatch_each-Sweeps :
      (n : ℕ) (os : List OutboxItemRecord) (g : Progress) (s : S) {g' : Progress}
      → (dispatch_each store env owner now n os g s).0 ≡ ok g'
      → Sweeps n os g s g' (dispatch_each store env owner now n os g s).1.1
  unfolding dispatch_each and_then
  dispatch_each-Sweeps n [] g s h = subst (λ y. Sweeps n [] g s y s) (ok_inj h) Sweeps.done
  dispatch_each-Sweeps n (o ∷ os) g s {g'} h =
      go (dispatch_item store env owner now n o g s) (λ x. dispatch_item-Handled n o g s {x = x})
        (λ x s'. dispatch_each-Sweeps (suc n) os x s') h
    where
      go :
          (m : Result Progress × (Progress × S))
          → ((x : Progress) → m.0 ≡ ok x → Handled n o g s x m.1.1)
          → ((x : Progress) (s' : S)
              → (dispatch_each store env owner now (suc n) os x s').0 ≡ ok g'
              → Sweeps (suc n) os x s' g' (dispatch_each store env owner now (suc n) os x s').1.1)
          → (and_then (dispatch_each store env owner now (suc n) os) m).0 ≡ ok g'
          → Sweeps n (o ∷ os) g s g' (and_then (dispatch_each store env owner now (suc n) os) m).1.1
      go (err e, reached) handled ih k = absurd (err-ne-ok k)
      go (ok x, (_, s')) handled ih k = Sweeps.next (handled x refl) (ih x s' k)
