-- ===== src/Webhooks/Endpoints.antt =====
-- services/webhook-service.ts: create, get, list, update and delete an endpoint; and
-- `assertWebhookEndpointShape` of core/network-safety.ts.
use hayasend.Base.{
  ℕ, String, Bool, true, false, not, ◌&&◌, List, [], ◌∷◌, map, Option, none, some, Result, ok, err,
  ◌>>=◌, ◌>>◌, refuse_if, require, ltb, ◌==◌, string_eq, is_some, includes, as_set,
  validation_error, not_found,
}
use hayasend.Platform.{Platform}
use hayasend.Store.State.{and_then}
use hayasend.Store.Pages.{Page}
use hayasend.Catalog.Enums.{WebhookEventType, WebhookStatus, webhook_event_type_eq}
use hayasend.Catalog.Records.{WebhookEndpoint}
use hayasend.Catalog.Items.{
  create_webhook, get_webhook, update_webhook, delete_webhook, list_webhooks,
}
use hayasend.Webhooks.State.{Url, World, Environment, Outcome, mint_id, mint_secret, iso_now}

pub record PublicWebhookEndpoint : Type 0 where
  pub id : String
  pub endpoint : String
  pub events : List WebhookEventType
  pub status : WebhookStatus
  pub created_at : String

unfoldable pub public_webhook : WebhookEndpoint → PublicWebhookEndpoint
public_webhook w = record {
  id = w.id;
  endpoint = w.endpoint;
  events = w.events;
  status = w.status;
  created_at = w.created_at;
}

unfoldable pub max_webhook_url_length : ℕ
max_webhook_url_length = 2048

-- Whether `assertWebhookEndpointShape` accepts the URL.
unfoldable pub webhook_endpoint_shape : Url → Bool
webhook_endpoint_shape u =
    not (ltb max_webhook_url_length u.length)
    && includes ("http:" ∷ "https:" ∷ []) u.protocol
    && u.username == ""
    && u.password == ""
    && u.hash == ""

-- The URL of an endpoint: it has to be one, of the right shape, and allowed.
unfoldable pub endpoint_url : Environment → String → Result Url
endpoint_url env text = do
  url ← require (env.parse_url text) validation_error
  refuse_if (not (webhook_endpoint_shape url)) validation_error
  ok url

unfoldable pub allow_endpoint : Environment → Url → Result (Unit {0})
allow_endpoint env url = refuse_if (not (env.validate_endpoint url)) validation_error

unfoldable pub is_empty {ℓ} : {A : Type ℓ} → List A → Bool
is_empty [] = true
is_empty (x ∷ xs) = false

pub record CreatedWebhook : Type 0 where
  pub webhook : PublicWebhookEndpoint
  pub signing_secret : String

module _ (p : Platform) (env : Environment) where
  -- The identifier, the secret and the time of a new endpoint, which is stored.
  unfoldable pub store_webhook : Url → List WebhookEventType → World → Outcome CreatedWebhook
  store_webhook url events w =
      let (id, w1) = mint_id env "wh" w in
      let (secret, w2) = mint_secret env w1 in
      and_then (iso_now env p w2) λ at w3.
        let r : WebhookEndpoint = record {
          id = id;
          endpoint = url.href;
          events = as_set events;
          signing_secret = secret;
          status = WebhookStatus.enabled;
          created_at = at;
        } in
        (
          ok (record { webhook = public_webhook r; signing_secret = secret }),
          record w3 { catalog = create_webhook r w3.catalog },
        )

  -- Every event of the input is one of the supported ones, which are all that its type has.
  unfoldable pub create_endpoint : String → List WebhookEventType → World → Outcome CreatedWebhook
  create_endpoint text events w =
      elim (endpoint_url env text >>= λ url.
      refuse_if (is_empty events) validation_error >> (allow_endpoint env url >> ok url)) [
        | err e ↦ (err e, w)
        | ok url ↦ store_webhook url events w
      ]

  unfoldable pub get_endpoint : String → World → Result PublicWebhookEndpoint
  get_endpoint id w = require (get_webhook id w.catalog) not_found >>= λ r. ok (public_webhook r)

  unfoldable pub list_endpoints : ℕ → Option String → World → Result (Page PublicWebhookEndpoint)
  list_endpoints limit cursor w = list_webhooks p limit cursor w.catalog >>= λ page. ok (record {
    entries = map public_webhook page.entries;
    has_more = page.has_more;
    next_cursor = page.next_cursor;
  })

  pub record WebhookUpdate : Type 0 where
    pub endpoint : Option String
    pub events : Option (List WebhookEventType)
    pub status : Option WebhookStatus

  unfoldable pub checked_events :
      Option (List WebhookEventType) → Result (Option (List WebhookEventType))
  checked_events none = ok none
  checked_events (some events) =
      refuse_if (is_empty events) validation_error >> ok (some (as_set events))

  unfoldable pub checked_endpoint : Option String → Result (Option String)
  checked_endpoint none = ok none
  checked_endpoint (some text) =
      endpoint_url env text >>= λ url. allow_endpoint env url >> ok (some url.href)

  unfoldable pub or_old {ℓ} : {A : Type ℓ} → Option A → A → A
  or_old none old = old
  or_old (some new) old = new

  -- The partial record of the update, spread over the stored one.
  unfoldable pub apply_update :
      Option String
      → Option (List WebhookEventType)
      → Option WebhookStatus
      → WebhookEndpoint
      → WebhookEndpoint
  apply_update endpoint events status r = record r {
    endpoint = or_old endpoint r.endpoint;
    events = or_old events r.events;
    status = or_old status r.status;
  }

  unfoldable pub checked_update : WebhookUpdate → Result (WebhookEndpoint → WebhookEndpoint)
  checked_update u = do
    refuse_if (not (is_some u.endpoint) && not (is_some u.events) && not (is_some u.status))
        validation_error
    events ← checked_events u.events
    endpoint ← checked_endpoint u.endpoint
    ok (apply_update endpoint events u.status)

  unfoldable pub update_endpoint : String → WebhookUpdate → World → Outcome PublicWebhookEndpoint
  update_endpoint id u w =
      elim (require (get_webhook id w.catalog) not_found >>= λ current. checked_update u) [
        | err e ↦ (err e, w)
        | ok updates ↦
            let (updated, catalog) = update_webhook id updates w.catalog in
            (
              require updated not_found >>= λ r. ok (public_webhook r),
              record w { catalog = catalog },
            )
      ]

  unfoldable pub delete_endpoint : String → World → Outcome (Unit {0})
  delete_endpoint id w =
      let (found, catalog) = delete_webhook id w.catalog in
      (refuse_if (not found) not_found, record w { catalog = catalog })
