-- ===== src/Webhooks/Deliveries/Laws.antt =====
-- What `deliver` leaves of a stored delivery, and when it makes a request.
use hayasend.Base.{
  ℕ, suc, ◌≤◌, ◌≡◌, ◌≢◌, ◌⊎◌, refl, sym, ap, ◌∙◌, String, true, false, [], ◌∷◌, ◌++◌, Option, none,
  some, Result, ok, err, ◌+◌, ltb, if◌then◌else◌, inl, inr, leb_iff, ◌==◌, string_eq, beq_ne, arith,
  subst, request_failed, refused_with_status,
}
use text.Mathlib.TextEquality.{eq_iff}
use hayasend.Base.Assoc.{get, get-put_same}
use hayasend.Platform.{Platform, iso_of, not_after, max_date}
use hayasend.Store.State.{and_then, and_then-keeps}
use hayasend.Catalog.Enums.{WebhookStatus, WebhookDeliveryStatus, webhook_status_eq}
use hayasend.Catalog.Records.{WebhookEvent, WebhookEndpoint, WebhookDeliveryRecord}
use hayasend.Catalog.Items.{
  get_webhook, get_webhook_delivery, live_delivery, update_webhook_delivery, updated_in,
  create_webhook_delivery,
}
use hayasend.Webhooks.State.{
  World, Environment, Outcome, HttpRequest, HttpAnswer, read_clock, iso_now,
}
use hayasend.Webhooks.Deliveries.{
  deliver, deliver_to, found_delivery, send_request, answered, request_of, settle, mark_delivering,
  next_attempts, update_in, enabled_webhook, new_delivery, create_in,
}

module _ (p : Platform) (env : Environment) (days : ℕ) where
  -- The stored delivery, over an update while it lives.
  update_in-get :
      (id : String) (f : WebhookDeliveryRecord → WebhookDeliveryRecord) (r : WebhookDeliveryRecord)
      (w : World)
      → get id w.catalog.webhook_deliveries ≡ some r
      → not_after p r.expires_at (env.clock w.readings) ≡ false
      → get id (update_in p env days id f w).catalog.webhook_deliveries ≡ some (f r)
  unfolding update_in read_clock update_webhook_delivery get_webhook_delivery live_delivery
      updated_in
  update_in-get id f r w at alive =
      rw (at, alive) (get-put_same id id (f r) w.catalog.webhook_deliveries refl)

  -- The clock gives dates that can be written.
  clock_writes :
      (w : World)
      → ((n : ℕ) → env.clock n ≤ max_date)
      → iso_now env p w
        ≡ (ok (p.iso_string (env.clock w.readings)), record w { readings = suc w.readings })
  unfolding iso_now read_clock iso_of
  clock_writes w valid = rw ((leb_iff (env.clock w.readings) max_date).1 (valid w.readings)) refl

  -- What an answer of the endpoint means: how the call ends, and what the delivery records of it.
  abbrev pub Records : HttpAnswer → Result (Unit {0}) → WebhookDeliveryRecord → Type 0
  Records (HttpAnswer.thrown message) result r =
      (result ≡ err request_failed)
      × (r.status ≡ WebhookDeliveryStatus.failed)
      × (r.response_status ≡ none)
      × (r.last_error ≡ some message)
  Records (HttpAnswer.response true code) result r =
      (result ≡ ok tt)
      × (r.status ≡ WebhookDeliveryStatus.succeeded)
      × (r.response_status ≡ some code)
      × (r.last_error ≡ none)
  Records (HttpAnswer.response false code) result r =
      (result ≡ err refused_with_status)
      × (r.status ≡ WebhookDeliveryStatus.failed)
      × (r.response_status ≡ some code)
      × (r.last_error ≡ some (env.status_text code))

  -- The stored delivery has the attempts, and records the answer.
  abbrev Settled : String → ℕ → HttpAnswer → Outcome (Unit {0}) → Type 0
  Settled id attempts answer out =
      (r : WebhookDeliveryRecord) × (get id out.1.catalog.webhook_deliveries ≡ some r)
      × (r.attempts ≡ attempts)
      × Records answer out.0 r

  answered-Settled :
      (answer : HttpAnswer) (id : String) (attempts : ℕ) (at : String) (r : WebhookDeliveryRecord)
      (w : World)
      → get id w.catalog.webhook_deliveries ≡ some r
      → ((n : ℕ) → not_after p r.expires_at (env.clock n) ≡ false)
      → ((n : ℕ) → env.clock n ≤ max_date)
      → Settled id attempts answer (answered p env days answer id attempts at w)
  unfolding answered and_then settle
  answered-Settled (HttpAnswer.thrown message) id attempts at r w found alive valid =
      rw (clock_writes w valid)
        (_, update_in-get id _ r _ found (alive _), refl, (refl, refl, refl, refl))
  answered-Settled (HttpAnswer.response false code) id attempts at r w found alive valid =
      rw (clock_writes w valid)
        (_, update_in-get id _ r _ found (alive _), refl, (refl, refl, refl, refl))
  answered-Settled (HttpAnswer.response true code) id attempts at r w found alive valid =
      rw (clock_writes w valid)
        (_, update_in-get id _ r _ found (alive _), refl, (refl, refl, refl, refl))

  answered-requests :
      (answer : HttpAnswer) (id : String) (attempts : ℕ) (at : String) (w : World)
      → (answered p env days answer id attempts at w).1.requests ≡ w.requests
  unfolding answered iso_now read_clock update_in
  answered-requests (HttpAnswer.thrown message) id attempts at w =
      and_then-keeps (λ (v : World). v.requests ≡ w.requests) _ _ refl (λ _ v h. h)
  answered-requests (HttpAnswer.response false status) id attempts at w =
      and_then-keeps (λ (v : World). v.requests ≡ w.requests) _ _ refl (λ _ v h. h)
  answered-requests (HttpAnswer.response true status) id attempts at w =
      and_then-keeps (λ (v : World). v.requests ≡ w.requests) _ _ refl (λ _ v h. h)

  -- A request to an endpoint: its address, under the delivery's identifier, with the event, which is
  -- signed with the endpoint's secret.
  abbrev pub Asks : WebhookEndpoint → WebhookDeliveryRecord → String → HttpRequest → Type 0
  Asks webhook r id q =
      (q.url ≡ webhook.endpoint)
      × (q.delivery_id ≡ id)
      × (q.body ≡ env.event_json r.event)
      × (q.signature ≡ env.sign_webhook webhook.signing_secret id q.timestamp q.body)

  -- One attempt at an enabled endpoint.
  deliver_to_lem :
      (webhook : WebhookEndpoint) (r : WebhookDeliveryRecord) (id : String) (attempt : ℕ)
      (w : World)
      → get id w.catalog.webhook_deliveries ≡ some r
      → ((n : ℕ) → not_after p r.expires_at (env.clock n) ≡ false)
      → ((n : ℕ) → env.clock n ≤ max_date)
      → let out = deliver_to p env days (some webhook) r id attempt w in
        (q : HttpRequest) × (out.1.requests ≡ w.requests ++ q ∷ [])
        × Asks webhook r id q
        × Settled id
            (next_attempts p env days attempt r.attempts)
            (env.http_fetch (suc (suc w.readings)) q)
            out
  unfolding deliver_to and_then send_request mark_delivering request_of update_in read_clock
  deliver_to_lem webhook r id attempt w found alive valid = rw (clock_writes w valid) (
    _,
    answered-requests _ id _ _ _,
    (refl, refl, refl, refl),
    answered-Settled _ id _ _ _ _
        (update_in-get id _ r (record w { readings = suc w.readings }) found
          (alive (suc w.readings)))
        alive valid,
  )

  -- For a stored delivery of this endpoint that does not expire meanwhile, with clocks that give
  -- dates: while the endpoint is enabled, `deliver` makes exactly one request, to the endpoint, under
  -- the delivery's identifier and signed with the endpoint's secret; the delivery then has the greater
  -- of the given attempt and one more than before, and records the answer: succeeded, with its code
  -- and no error, where it is a success, and only then the call does not throw; failed otherwise, with
  -- the code and an error that names it where there is one, and with the client's message where the
  -- request has thrown.
  pub deliver_settles :
      (webhook_id : String) (event : WebhookEvent) (id : String) (attempt : ℕ) (w : World)
      (webhook : WebhookEndpoint) (r : WebhookDeliveryRecord)
      → get id w.catalog.webhook_deliveries ≡ some r
      → r.webhook_id ≡ webhook_id
      → get webhook_id w.catalog.webhooks ≡ some webhook
      → webhook.status ≡ WebhookStatus.enabled
      → ((n : ℕ) → not_after p r.expires_at (env.clock n) ≡ false)
      → ((n : ℕ) → env.clock n ≤ max_date)
      → let out = deliver p env days webhook_id event id attempt w in
        (q : HttpRequest) × (out.1.requests ≡ w.requests ++ q ∷ [])
        × Asks webhook r id q
        × ((r' : WebhookDeliveryRecord) × (get id out.1.catalog.webhook_deliveries ≡ some r')
            × (r'.attempts ≡ (if ltb attempt (r.attempts + 1) then r.attempts + 1 else attempt))
            × Records (env.http_fetch (suc (suc (suc w.readings))) q) out.0 r')
  unfolding deliver and_then read_clock found_delivery get_webhook get_webhook_delivery
      live_delivery enabled_webhook next_attempts
  deliver_settles webhook_id event id attempt w webhook r at mine there enabled alive valid =
      let is : (r.webhook_id == webhook_id) ≡ true = (eq_iff r.webhook_id webhook_id).1 mine in
      let on : (webhook.status == WebhookStatus.enabled) ≡ true =
        (webhook_status_eq.beq_iff webhook.status WebhookStatus.enabled).1 enabled in
      rw (at, alive w.readings, is, there, on)
        (deliver_to_lem webhook r id attempt (record w { readings = suc w.readings }) at alive
          valid)

  -- No request so far, and the endpoints as they were.
  abbrev Unasked : World → World → Type 0
  Unasked w v = (v.requests ≡ w.requests) × (v.catalog.webhooks ≡ w.catalog.webhooks)

  found_delivery-Unasked :
      (o : Option WebhookDeliveryRecord) (id webhook_id : String) (event : WebhookEvent) (w : World)
      → Unasked w
          (found_delivery p env days o id webhook_id event
            (record w { readings = suc w.readings })).1
  unfolding found_delivery new_delivery read_clock create_in create_webhook_delivery
  found_delivery-Unasked none id webhook_id event w =
      and_then-keeps (Unasked w) _ _ (refl, refl) (λ r v h. (h.0, ground arith))
  found_delivery-Unasked (some r) id webhook_id event w = (ground arith, ground arith)

  uncalled :
      (w : World) (r : WebhookDeliveryRecord) (id : String) (attempt : ℕ) (v : World)
      → Unasked w v
      → Unasked w (deliver_to p env days none r id attempt v).1
  unfolding deliver_to iso_now read_clock update_in update_webhook_delivery
  uncalled w r id attempt v h = and_then-keeps (Unasked w) _ _ h (λ _ u k. k)

  disabled :
      (o : Option WebhookEndpoint)
      → ((webhook : WebhookEndpoint) → o ≡ some webhook → webhook.status ≢ WebhookStatus.enabled)
      → enabled_webhook o ≡ none
  unfolding enabled_webhook
  disabled none h = refl
  disabled (some webhook) h = rw (beq_ne webhook.status WebhookStatus.enabled (h webhook refl)) refl

  -- Whatever is stored, `deliver` makes no request where the endpoint is gone or disabled, or where
  -- the delivery that is stored and alive is another endpoint's.
  pub deliver_is_guarded :
      (webhook_id : String) (event : WebhookEvent) (id : String) (attempt : ℕ) (w : World)
      → ((webhook : WebhookEndpoint)
          → get webhook_id w.catalog.webhooks ≡ some webhook
          → webhook.status ≢ WebhookStatus.enabled)
        ⊎ ((r : WebhookDeliveryRecord) × (get_webhook_delivery p id (env.clock w.readings) w.catalog
              ≡ some r)
            × (r.webhook_id ≢ webhook_id))
      → (deliver p env days webhook_id event id attempt w).1.requests ≡ w.requests
  unfolding deliver read_clock get_webhook found_delivery and_then
  deliver_is_guarded webhook_id event id attempt w (inl off) =
      (and_then-keeps (Unasked w) _ _
        (found_delivery-Unasked (get_webhook_delivery p id _ w.catalog) id webhook_id event w)
        (λ r v h.
          subst (λ o. Unasked w (deliver_to p env days o r id attempt v).1)
            (sym (ap (λ m. enabled_webhook (get webhook_id m)) h.1 ∙ disabled _ off))
            (uncalled w r id attempt v h))).0
  deliver_is_guarded webhook_id event id attempt w (inr (r, at, other)) =
      let no : (r.webhook_id == webhook_id) ≡ false = beq_ne r.webhook_id webhook_id other in
      rw (at, no) refl
