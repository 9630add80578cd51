-- ===== src/Webhooks/Publish/Queueing.antt =====
-- services/webhook-service.ts: what `enqueueDelivery` changes of the queue, and that it leaves the
-- endpoints alone.
use hayasend.Base.{
  ℕ, suc, ◌+◌, ◌≡◌, refl, sym, ap, ◌∙◌, String, Bool, true, false, List, [], ◌∷◌, ◌++◌, Option,
  none, some, ok, arith, err-ne-ok, ok_inj, >>=-eq-ok, ◌*◌,
}
use hayasend.Platform.{Platform, iso_of}
use hayasend.Jobs.{Job}
use hayasend.Store.State.{and_then-keeps, and_then-eq-ok}
use hayasend.Catalog.Records.{WebhookEvent, WebhookDeliveryRecord}
use hayasend.Catalog.Items.{create_webhook_delivery, update_webhook_delivery}
use hayasend.Webhooks.State.{World, Environment, iso_now, read_clock, mint_id}
use hayasend.Webhooks.Deliveries.{
  enqueue_delivery, enqueue_created, enqueued, new_delivery, create_in, update_in, delivery_record,
  job_of,
}

-- The endpoints for which jobs stand in the queue.
unfoldable pub job_targets : List Job → List String
job_targets [] = []
job_targets (Job.deliver_webhook webhook_id delivery_id event ∷ jobs) =
    webhook_id ∷ job_targets jobs
job_targets (Job.send_email email_id job_id ∷ jobs) = job_targets jobs
job_targets (Job.reconcile_outbox outbox_id ∷ jobs) = job_targets jobs
job_targets (Job.publish_received_email email_id ∷ jobs) = job_targets jobs

pub job_targets-append :
    (xs ys : List Job) → job_targets (xs ++ ys) ≡ job_targets xs ++ job_targets ys
unfolding job_targets
job_targets-append [] ys = refl
job_targets-append (Job.deliver_webhook i d e ∷ xs) ys = ap (λ r. i ∷ r) (job_targets-append xs ys)
job_targets-append (Job.send_email i d ∷ xs) ys = job_targets-append xs ys
job_targets-append (Job.reconcile_outbox i ∷ xs) ys = job_targets-append xs ys
job_targets-append (Job.publish_received_email i ∷ xs) ys = job_targets-append xs ys

pub append_assoc {ℓ} : {A : Type ℓ} (xs ys zs : List A) → (xs ++ ys) ++ zs ≡ xs ++ (ys ++ zs)
append_assoc [] ys zs = refl
append_assoc (x ∷ xs) ys zs = ap (λ r. x ∷ r) (append_assoc xs ys zs)

pub append_nil {ℓ} : {A : Type ℓ} (xs : List A) → xs ++ [] ≡ xs
append_nil [] = refl
append_nil (x ∷ xs) = ap (λ r. x ∷ r) (append_nil xs)

module _ (p : Platform) (env : Environment) (days : ℕ) where
  update_in-webhooks :
      (id : String) (f : WebhookDeliveryRecord → WebhookDeliveryRecord) (w : World)
      → (update_in p env days id f w).catalog.webhooks ≡ w.catalog.webhooks
  unfolding update_in read_clock update_webhook_delivery
  update_in-webhooks id f w = refl

  create_in_frame :
      (r : WebhookDeliveryRecord) (w : World)
      → ((create_in p env days r w).1.catalog.webhooks ≡ w.catalog.webhooks)
        × ((create_in p env days r w).1.jobs ≡ w.jobs)
  unfolding create_in create_webhook_delivery
  create_in_frame r w = (ground arith, refl)

  enqueued-webhooks :
      (r : WebhookDeliveryRecord) (o : Option String) (w : World)
      → (enqueued p env days r o w).1.catalog.webhooks ≡ w.catalog.webhooks
  unfolding enqueued iso_now read_clock
  enqueued-webhooks r none w = refl
  enqueued-webhooks r (some message) w =
      and_then-keeps (λ v. v.catalog.webhooks ≡ w.catalog.webhooks) _ _ refl
        λ at v h. update_in-webhooks r.id _ v ∙ h

  enqueue_created-webhooks :
      (r : WebhookDeliveryRecord) (made : Bool) (w : World)
      → (enqueue_created p env days r (made, w)).1.catalog.webhooks ≡ w.catalog.webhooks
  unfolding enqueue_created
  enqueue_created-webhooks r false w = refl
  enqueue_created-webhooks r true w = enqueued-webhooks r _ w

  -- Queueing a delivery leaves the endpoints as they are.
  pub enqueue_delivery-webhooks :
      (id : String) (event : WebhookEvent) (from : Option String) (w : World)
      → (enqueue_delivery p env days id event from w).1.catalog.webhooks ≡ w.catalog.webhooks
  unfolding enqueue_delivery new_delivery read_clock mint_id
  enqueue_delivery-webhooks id event from w =
      and_then-keeps (λ v. v.catalog.webhooks ≡ w.catalog.webhooks) _ _ refl
        λ r v h.
          enqueue_created-webhooks r (create_in p env days r v).0 (create_in p env days r v).1
          ∙ (create_in_frame r v).0
          ∙ h

  enqueued-jobs :
      (r r' : WebhookDeliveryRecord) (o : Option String) (w : World)
      → (enqueued p env days r o w).0 ≡ ok r'
      → (enqueued p env days r o w).1.jobs ≡ w.jobs ++ job_of p env days r ∷ []
  unfolding enqueued
  enqueued-jobs r r' none w h = refl
  enqueued-jobs r r' (some message) w h =
      let (at, _, refused, _) = and_then-eq-ok (iso_now env p w) _ h in absurd (err-ne-ok refused)

  enqueue_created-jobs :
      (r r' : WebhookDeliveryRecord) (made : Bool) (w : World)
      → (enqueue_created p env days r (made, w)).0 ≡ ok r'
      → (enqueue_created p env days r (made, w)).1.jobs ≡ w.jobs ++ job_of p env days r ∷ []
  unfolding enqueue_created
  enqueue_created-jobs r r' false w h = absurd (err-ne-ok h)
  enqueue_created-jobs r r' true w h = enqueued-jobs r r' _ w h

  new_delivery_lem :
      (key id : String) (event : WebhookEvent) (from : Option String) (w : World)
      (r : WebhookDeliveryRecord)
      → (new_delivery p env days key id event from w).0 ≡ ok r
      → (r.webhook_id ≡ id) × ((new_delivery p env days key id event from w).1.jobs ≡ w.jobs)
  unfolding new_delivery read_clock delivery_record
  new_delivery_lem key id event from w r h =
      let (at, _, rest) = >>=-eq-ok (iso_of p (env.clock w.readings)) _ h in
      let (until, _, is) = >>=-eq-ok (iso_of p (env.clock w.readings + days * 86400000)) _ rest in
      (ap (λ (x : WebhookDeliveryRecord). x.webhook_id) (sym (ok_inj is)), refl)

  -- A delivery that was queued is a job for its endpoint.
  pub enqueue_delivery-job_targets :
      (id : String) (event : WebhookEvent) (from : Option String) (w : World)
      (r : WebhookDeliveryRecord)
      → (enqueue_delivery p env days id event from w).0 ≡ ok r
      → job_targets (enqueue_delivery p env days id event from w).1.jobs
        ≡ job_targets w.jobs ++ id ∷ []
  unfolding enqueue_delivery job_targets job_of mint_id
  enqueue_delivery-job_targets id event from w r h =
      let key : String = env.create_id "msg" w.minted in
      let w1 : World = record w { minted = suc w.minted } in
      let (r', made, rest, state) =
        and_then-eq-ok (new_delivery p env days key id event from w1) _ h in
      let w2 : World = (new_delivery p env days key id event from w1).1 in
      let stored : Bool × World = create_in p env days r' w2 in
      let jobs : (enqueue_created p env days r' stored).1.jobs
          ≡ stored.1.jobs ++ job_of p env days r' ∷ [] =
        enqueue_created-jobs r' r stored.0 stored.1 rest in
      ap (λ (v : World). job_targets v.jobs) state
      ∙ ap job_targets (jobs ∙ ap (λ l. l ++ job_of p env days r' ∷ []) (create_in_frame r' w2).1)
      ∙ job_targets-append w2.jobs (job_of p env days r' ∷ [])
      ∙ ap (λ i. job_targets w2.jobs ++ i ∷ []) (new_delivery_lem key id event from w1 r' made).0
      ∙ ap (λ l. job_targets l ++ id ∷ []) (new_delivery_lem key id event from w1 r' made).1
