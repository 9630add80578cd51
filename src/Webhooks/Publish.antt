-- ===== src/Webhooks/Publish.antt =====
-- services/webhook-service.ts: `publish` and `publishData`, the fan-out of an event over the pages of
-- the endpoints.
pub mod Queueing
pub mod Rounds
pub mod Laws
use hayasend.Base.{
  ℕ, zero, suc, ◌+◌, String, Bool, true, false, ◌&&◌, List, [], ◌∷◌, Option, none, some, Result, ok,
  err, if◌then◌else◌, ◌==◌, string_eq, filter_by, length, includes, Error,
}
use hayasend.Platform.{Platform}
use hayasend.Json.{Json, Fields}
use hayasend.Store.State.{and_then}
use hayasend.Store.Pages.{Page, truthy}
use hayasend.Model.Records.{EmailRecord}
use hayasend.Catalog.Enums.{
  WebhookEventType, WebhookStatus, webhook_event_type_eq, webhook_status_eq,
}
use hayasend.Catalog.Records.{
  WebhookEvent, WebhookEventData, WebhookEndpoint, WebhookDeliveryRecord,
}
use hayasend.Catalog.Items.{list_webhooks}
use hayasend.Webhooks.State.{World, Environment, Outcome, iso_now}
use hayasend.Webhooks.Deliveries.{enqueue_delivery}

-- webhook.status === "enabled" && webhook.events.includes(type)
unfoldable pub subscribed : WebhookEventType → WebhookEndpoint → Bool
subscribed kind r = r.status == WebhookStatus.enabled && includes r.events kind

-- Promise.all rejects with the first error, while the other calls go on.
unfoldable pub first_error {ℓ κ} : {A : Type ℓ} {B : Type κ} → Result A → Result B → Result B
first_error (err e) later = err e
first_error (ok a) later = later

module _ (p : Platform) (env : Environment) (retention_days : ℕ) where
  -- One enqueueDelivery for each endpoint, in the order of the page.
  unfoldable pub enqueue_each : WebhookEvent → List WebhookEndpoint → World → Outcome (Unit {0})
  enqueue_each event [] w = (ok tt, w)
  enqueue_each event (r ∷ rs) w =
      let (answer, w') = enqueue_delivery p env retention_days r.id event none w in
      let (rest, w'') = enqueue_each event rs w' in (first_error answer rest, w'')

  unfoldable pub publish_page :
      WebhookEvent → Result (Page WebhookEndpoint) → World → Outcome (Option String)
  publish_page event (err e) w = (err e, w)
  publish_page event (ok page) w =
      and_then (enqueue_each event (filter_by (subscribed event.kind) page.entries) w)
        λ _ w'. (ok (truthy page.next_cursor), w')

  -- What follows a page: the end, or a further round.
  unfoldable pub after_page :
      (String → World → Option (Outcome (Unit {0})))
      → Outcome (Option String)
      → Option (Outcome (Unit {0}))
  after_page further (err e, w) = some (err e, w)
  after_page further (ok none, w) = some (ok tt, w)
  after_page further (ok (some cursor), w) = further cursor w

  -- do { ... } while (cursor), on fuel: `none` means that the fuel ran out.
  unfoldable pub publish_pages :
      ℕ → WebhookEvent → Option String → World → Option (Outcome (Unit {0}))
  publish_pages zero event cursor w = none
  publish_pages (suc fuel) event cursor w =
      after_page (λ next w'. publish_pages fuel event (some next) w')
        (publish_page event (list_webhooks p 100 cursor w.catalog) w)

  unfoldable pub publish_stamped :
      WebhookEventType → WebhookEventData → Outcome String → Option (Outcome (Unit {0}))
  publish_stamped kind contents (err e, w) = some (err e, w)
  publish_stamped kind contents (ok at, w) =
      publish_pages (suc (length w.catalog.webhooks))
        (record { kind = kind; created_at = at; contents = contents }) none w

  unfoldable pub publish_data :
      WebhookEventType → WebhookEventData → World → Option (Outcome (Unit {0}))
  publish_data kind contents w = publish_stamped kind contents (iso_now env p w)

  -- `...(email.provider_id ? { message_id } : {})`
  unfoldable pub message_id_field : Option String → Fields → Fields
  message_id_field none extra = extra
  message_id_field (some id) extra = Fields.field "message_id" (Json.text id) extra

  -- `extra` has no field of the names that are set here.
  unfoldable pub publish :
      WebhookEventType → EmailRecord → Fields → World → Option (Outcome (Unit {0}))
  publish kind email extra w =
      publish_data kind
        (record {
          created_at = email.created_at;
          email_id = email.id;
          sender = email.content.sender;
          recipients = email.content.recipients;
          subject = email.content.subject;
          extra = message_id_field (truthy email.provider_id) extra;
        })
        w
