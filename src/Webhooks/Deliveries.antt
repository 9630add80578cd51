-- ===== src/Webhooks/Deliveries.antt =====
-- services/webhook-service.ts: a delivery is made, queued, and sent by `deliver`.
pub mod Laws
use hayasend.Base.{
  ℕ, suc, ◌+◌, ◌*◌, String, Bool, true, false, not, List, [], ◌∷◌, ◌++◌, Option, none, some, Result,
  ok, err, ltb, if◌then◌else◌, ◌==◌, string_eq, wrong_endpoint, id_collision, enqueue_failed,
  request_failed, refused_with_status, not_found, validation_error, ◌>>=◌, ◌>>◌, require, refuse_if,
}
use hayasend.Platform.{Platform, iso_of}
use hayasend.Jobs.{Job}
use hayasend.Store.State.{and_then}
use hayasend.Catalog.Enums.{WebhookStatus, WebhookDeliveryStatus, webhook_status_eq}
use hayasend.Catalog.Records.{WebhookEvent, WebhookEndpoint, WebhookDeliveryRecord}
use hayasend.Catalog.State.{CatalogStore}
use hayasend.Catalog.Items.{
  get_webhook, create_webhook_delivery, get_webhook_delivery, update_webhook_delivery,
}
use hayasend.Webhooks.State.{
  World, Environment, Outcome, HttpRequest, HttpAnswer, read_clock, mint_id, iso_now,
}

-- `webhook && webhook.status === "enabled"`
unfoldable pub enabled_webhook : Option WebhookEndpoint → Option WebhookEndpoint
enabled_webhook none = none
enabled_webhook (some r) = if r.status == WebhookStatus.enabled then some r else none

module _ (p : Platform) (env : Environment) (retention_days : ℕ) where
  unfoldable pub delivery_record :
      String → String → WebhookEvent → Option String → String → String → WebhookDeliveryRecord
  delivery_record id webhook_id event replayed_from at expires_at = record {
    id = id;
    webhook_id = webhook_id;
    event_type = event.kind;
    event = event;
    status = WebhookDeliveryStatus.pending;
    attempts = 0;
    response_status = none;
    last_error = none;
    last_attempt_at = none;
    replayed_from = replayed_from;
    created_at = at;
    updated_at = at;
    expires_at = expires_at;
  }

  unfoldable pub new_delivery :
      String → String → WebhookEvent → Option String → World → Outcome WebhookDeliveryRecord
  new_delivery id webhook_id event replayed_from w =
      let (now, w') = read_clock env w in
      (
        iso_of p now >>= λ at. iso_of p (now + retention_days * 86400000) >>= λ expires_at.
            ok (delivery_record id webhook_id event replayed_from at expires_at),
        w',
      )

  -- createWebhookDelivery
  unfoldable pub create_in : WebhookDeliveryRecord → World → Bool × World
  create_in r w =
      let (created, catalog) = create_webhook_delivery r w.catalog in
      (created, record w { catalog = catalog })

  -- updateWebhookDelivery, which reads the clock
  unfoldable pub update_in :
      String → (WebhookDeliveryRecord → WebhookDeliveryRecord) → World → World
  update_in id updates w =
      let (now, w') = read_clock env w in
      let (updated, catalog) = update_webhook_delivery p id updates now w'.catalog in
      record w' { catalog = catalog }

  unfoldable pub failed_to_enqueue : String → String → WebhookDeliveryRecord → WebhookDeliveryRecord
  failed_to_enqueue message at r = record r {
    status = WebhookDeliveryStatus.failed;
    last_error = some message;
    updated_at = at;
  }

  unfoldable pub job_of : WebhookDeliveryRecord → Job
  job_of r = Job.deliver_webhook r.webhook_id (some r.id) r.event

  -- What `queue.enqueue` answers: a refusal is recorded and thrown on.
  unfoldable pub enqueued :
      WebhookDeliveryRecord → Option String → World → Outcome WebhookDeliveryRecord
  enqueued r none w = (ok r, record w { jobs = w.jobs ++ job_of r ∷ [] })
  enqueued r (some message) w =
      and_then (iso_now env p w)
        λ at w'. (err enqueue_failed, update_in r.id (failed_to_enqueue message at) w')

  unfoldable pub enqueue_created :
      WebhookDeliveryRecord → Bool × World → Outcome WebhookDeliveryRecord
  enqueue_created r (false, w) = (err id_collision, w)
  enqueue_created r (true, w) = enqueued r (env.enqueue w.readings (job_of r)) w

  unfoldable pub enqueue_delivery :
      String → WebhookEvent → Option String → World → Outcome WebhookDeliveryRecord
  enqueue_delivery webhook_id event replayed_from w =
      let (id, w1) = mint_id env "msg" w in
      and_then (new_delivery id webhook_id event replayed_from w1)
        λ r w2. enqueue_created r (create_in r w2)

  unfoldable pub cancel : String → WebhookDeliveryRecord → WebhookDeliveryRecord
  cancel at r = record r { status = WebhookDeliveryStatus.cancelled; updated_at = at }

  unfoldable pub mark_delivering : ℕ → String → WebhookDeliveryRecord → WebhookDeliveryRecord
  mark_delivering attempts at r = record r {
    status = WebhookDeliveryStatus.delivering;
    attempts = attempts;
    last_attempt_at = some at;
    updated_at = at;
    response_status = none;
    last_error = none;
  }

  unfoldable pub settle :
      WebhookDeliveryStatus
      → ℕ
      → Option ℕ
      → Option String
      → String
      → String
      → WebhookDeliveryRecord
      → WebhookDeliveryRecord
  settle status attempts response_status last_error attempted_at at r = record r {
    status = status;
    attempts = attempts;
    response_status = response_status;
    last_error = last_error;
    last_attempt_at = some attempted_at;
    updated_at = at;
  }

  -- Math.max(attempt, attempts + 1)
  unfoldable pub next_attempts : ℕ → ℕ → ℕ
  next_attempts attempt attempts = if ltb attempt (attempts + 1) then attempts + 1 else attempt

  unfoldable pub request_of :
      WebhookEndpoint → WebhookDeliveryRecord → String → String → HttpRequest
  request_of webhook r id attempted_at =
      let timestamp = env.seconds_text (p.date_parse attempted_at) in
      record {
        url = webhook.endpoint;
        delivery_id = id;
        timestamp = timestamp;
        signature = env.sign_webhook webhook.signing_secret id timestamp (env.event_json r.event);
        body = env.event_json r.event;
      }

  -- What follows the answer of the HTTP client.
  unfoldable pub answered : HttpAnswer → String → ℕ → String → World → Outcome (Unit {0})
  answered (HttpAnswer.thrown message) id attempts attempted_at w =
      and_then (iso_now env p w) λ at w'. (
        err request_failed,
        update_in id
            (settle WebhookDeliveryStatus.failed attempts none (some message) attempted_at at) w',
      )
  answered (HttpAnswer.response false status) id attempts attempted_at w =
      and_then (iso_now env p w) λ at w'. (
        err refused_with_status,
        update_in id
            (settle WebhookDeliveryStatus.failed attempts (some status)
              (some (env.status_text status)) attempted_at at)
            w',
      )
  answered (HttpAnswer.response true status) id attempts attempted_at w =
      and_then (iso_now env p w) λ at w'. (
        ok tt,
        update_in id
            (settle WebhookDeliveryStatus.succeeded attempts (some status) none attempted_at at) w',
      )

  unfoldable pub send_request :
      WebhookEndpoint → WebhookDeliveryRecord → String → ℕ → String → World → Outcome (Unit {0})
  send_request webhook r id attempts attempted_at w =
      let request = request_of webhook r id attempted_at in
      answered (env.http_fetch w.readings request) id attempts attempted_at
        (record w { requests = w.requests ++ request ∷ [] })

  -- With the delivery at hand: cancel it, or mark it and send it.
  unfoldable pub deliver_to :
      Option WebhookEndpoint → WebhookDeliveryRecord → String → ℕ → World → Outcome (Unit {0})
  deliver_to none r id attempt w =
      and_then (iso_now env p w) λ at w'. (ok tt, update_in id (cancel at) w')
  deliver_to (some webhook) r id attempt w = and_then (iso_now env p w) λ at w'.
      let attempts = next_attempts attempt r.attempts in
      send_request webhook r id attempts at (update_in id (mark_delivering attempts at) w')

  -- The delivery that is stored and alive, or a new one; `createWebhookDelivery` may refuse it.
  unfoldable pub found_delivery :
      Option WebhookDeliveryRecord
      → String
      → String
      → WebhookEvent
      → World
      → Outcome WebhookDeliveryRecord
  found_delivery none id webhook_id event w =
      and_then (new_delivery id webhook_id event none w) λ r w'. (ok r, (create_in r w').1)
  found_delivery (some r) id webhook_id event w =
      if not (r.webhook_id == webhook_id) then (err wrong_endpoint, w) else (ok r, w)

  unfoldable pub deliver : String → WebhookEvent → String → ℕ → World → Outcome (Unit {0})
  deliver webhook_id event id attempt w =
      let (now, w1) = read_clock env w in
      and_then (found_delivery (get_webhook_delivery p id now w1.catalog) id webhook_id event w1)
        λ r w2. deliver_to (enabled_webhook (get_webhook webhook_id w2.catalog)) r id attempt w2

  -- replay: an enabled endpoint's own delivery is queued again under a new identifier.
  unfoldable pub replayable :
      Option WebhookEndpoint → Option WebhookDeliveryRecord → String → Result WebhookDeliveryRecord
  replayable webhook source webhook_id = do
    w ← require webhook not_found
    refuse_if (not (w.status == WebhookStatus.enabled)) validation_error
    r ← require source not_found
    refuse_if (not (r.webhook_id == webhook_id)) not_found
    ok r

  unfoldable pub replay : String → String → World → Outcome WebhookDeliveryRecord
  replay webhook_id delivery_id w =
      let (now, w') = read_clock env w in
      and_then
        (
          replayable (get_webhook webhook_id w'.catalog)
              (get_webhook_delivery p delivery_id now w'.catalog) webhook_id,
          w',
        )
        λ source w2. enqueue_delivery webhook_id source.event (some source.id) w2

  unfoldable pub get_delivery : String → String → World → Outcome WebhookDeliveryRecord
  get_delivery webhook_id delivery_id w =
      let (now, w') = read_clock env w in
      (
        require (get_webhook webhook_id w'.catalog) not_found >>= λ _.
            require (get_webhook_delivery p delivery_id now w'.catalog) not_found >>= λ r.
            refuse_if (not (r.webhook_id == webhook_id)) not_found >> ok r,
        w',
      )
