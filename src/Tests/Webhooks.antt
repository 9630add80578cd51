-- ===== src/Tests/Webhooks.antt =====
-- Webhooks at small inputs: two endpoints, of which one is enabled.
use hayasend.Base.{
  ◌+◌, suc, ltb, if◌then◌else◌, ℕ, ◌≤◌, ◌≡◌, ◌≢◌, inr, refl, true, false, [], ◌∷◌, ◌++◌, map, none,
  some, ok, arith, filter_by, sort, All,
}
use text.Mathlib.TextEquality.{eq_iff}
use hayasend.Base.Assoc.{get, values}
use hayasend.Base.Assoc.Keyed.{IsKeyed}
use hayasend.Platform.{Platform, not_after, max_date}
use hayasend.Json.{Fields}
use hayasend.Store.Pages.{newer_first}
use hayasend.Catalog.Enums.{WebhookEventType, WebhookStatus, WebhookDeliveryStatus}
use hayasend.Catalog.Records.{
  WebhookEndpoint, WebhookEvent, WebhookEventData, WebhookDeliveryRecord,
}
use hayasend.Catalog.State.{CatalogStore}
use hayasend.Catalog.Items.{get_webhook_delivery, live_delivery}
use hayasend.Webhooks.State.{World, Environment, Outcome, HttpRequest, HttpAnswer}
use hayasend.Webhooks.Deliveries.{deliver}
use hayasend.Webhooks.Deliveries.Laws.{deliver_settles, deliver_is_guarded, Records, Asks}
use hayasend.Webhooks.Publish.{publish_data, subscribed}
use hayasend.Webhooks.Publish.Queueing.{job_targets}
use hayasend.Webhooks.Publish.Laws.{publish_data_reaches_endpoints}
use hayasend.Tests.Samples.{strokes}

-- Times never end, so that no delivery expires.
abbrev pub lasting : Platform
lasting = record {
  date_parse = λ s. none;
  iso_string = λ n. "I";
  is_datetime = λ s. true;
  is_email = λ s. true;
  locale_le = λ a b. true;
}

abbrev test_environment : Environment
test_environment = record {
  clock = λ n. 5;
  create_id = λ prefix n. strokes n;
  create_webhook_secret = λ n. "whsec_";
  parse_url = λ s. none;
  validate_endpoint = λ u. true;
  enqueue = λ n job. none;
  http_fetch = λ n q. HttpAnswer.response true 200;
  sign_webhook = λ secret id timestamp body. "v1,";
  event_json = λ event. "{}";
  seconds_text = λ t. "0";
  status_text = λ n. "HTTP";
}

abbrev endpoint_a : WebhookEndpoint
endpoint_a = record {
  id = "wh_a";
  endpoint = "https://example.com/a";
  events = WebhookEventType.sent ∷ WebhookEventType.bounced ∷ [];
  signing_secret = "whsec_a";
  status = WebhookStatus.enabled;
  created_at = "I";
}

abbrev endpoint_b : WebhookEndpoint
endpoint_b = record endpoint_a { id = "wh_b"; status = WebhookStatus.disabled }

abbrev test_contents : WebhookEventData
test_contents = record {
  created_at = "I";
  email_id = "email_abcdefghijklmnop";
  sender = "shop@example.com";
  recipients = "ann@example.com" ∷ [];
  subject = "Your order";
  extra = Fields.end;
}

abbrev test_webhook_event : WebhookEvent
test_webhook_event = record {
  kind = WebhookEventType.sent;
  created_at = "I";
  contents = test_contents;
}

abbrev test_delivery : WebhookDeliveryRecord
test_delivery = record {
  id = "msg_1";
  webhook_id = "wh_a";
  event_type = WebhookEventType.sent;
  event = test_webhook_event;
  status = WebhookDeliveryStatus.pending;
  attempts = 2;
  response_status = none;
  last_error = none;
  last_attempt_at = none;
  replayed_from = none;
  created_at = "I";
  updated_at = "I";
  expires_at = "IIIIIIIII";
}

abbrev test_catalog : CatalogStore
test_catalog = record {
  attachment_uploads = [];
  received_emails = [];
  received_claims = [];
  domains = [];
  webhooks = ("wh_a", endpoint_a) ∷ ("wh_b", endpoint_b) ∷ [];
  webhook_deliveries = ("msg_1", test_delivery) ∷ [];
  api_keys = [];
  suppressions = [];
}

abbrev test_world : World
test_world = record { catalog = test_catalog; readings = 0; minted = 0; jobs = []; requests = [] }

webhooks-IsKeyed : IsKeyed (λ r. r.id) test_world.catalog.webhooks
unfolding IsKeyed get
webhooks-IsKeyed = (refl, refl, (refl, refl, tt))

webhooks_named : All (λ (r : WebhookEndpoint). r.id ≢ "") (values test_world.catalog.webhooks)
webhooks_named =
    (λ e. ground (arith, eq_iff "wh_a" ""), (λ e. ground (arith, eq_iff "wh_b" ""), tt))

publish_data_reaches_endpoints_example :
    (out : Outcome (Unit {0})) × (publish_data lasting test_environment 7 WebhookEventType.sent
        test_contents test_world
      ≡ some out)
    × (out.1.catalog.webhooks ≡ test_world.catalog.webhooks)
    × (out.0 ≡ ok tt
        → job_targets out.1.jobs
          ≡ job_targets test_world.jobs
            ++ map
                (λ r. r.id)
                (filter_by (subscribed WebhookEventType.sent) (
                  sort
                    (newer_first (λ r. r.id) lasting (λ r. r.created_at))
                    (values test_world.catalog.webhooks))))
publish_data_reaches_endpoints_example =
    publish_data_reaches_endpoints lasting test_environment 7 WebhookEventType.sent test_contents
      test_world webhooks-IsKeyed webhooks_named

unexpired_test :
    (n : ℕ) → not_after lasting test_delivery.expires_at (test_environment.clock n) ≡ false
unfolding not_after
unexpired_test n = refl

dated_test : (n : ℕ) → test_environment.clock n ≤ max_date
unfolding max_date
dated_test n = omega arith

deliver_settles_example :
    let out = deliver lasting test_environment 7 "wh_a" test_webhook_event "msg_1" 1 test_world in
    (q : HttpRequest) × (out.1.requests ≡ test_world.requests ++ q ∷ [])
    × Asks lasting test_environment 7 endpoint_a test_delivery "msg_1" q
    × ((r' : WebhookDeliveryRecord) × (get "msg_1" out.1.catalog.webhook_deliveries ≡ some r')
        × (r'.attempts
            ≡ (if ltb 1 (test_delivery.attempts + 1) then test_delivery.attempts + 1 else 1))
        × Records lasting test_environment 7
            (test_environment.http_fetch (suc (suc (suc test_world.readings))) q)
            out.0
            r')
unfolding get
deliver_settles_example =
    deliver_settles lasting test_environment 7 "wh_a" test_webhook_event "msg_1" 1 test_world
      endpoint_a test_delivery refl refl refl refl unexpired_test dated_test

foreign_delivery :
    (r : WebhookDeliveryRecord) × (get_webhook_delivery lasting "msg_1"
        (test_environment.clock test_world.readings)
        test_world.catalog
      ≡ some r)
    × (r.webhook_id ≢ "wh_b")
unfolding get_webhook_delivery get live_delivery not_after
foreign_delivery = (test_delivery, refl, λ e. ground (arith, eq_iff "wh_a" "wh_b"))

deliver_is_guarded_example :
    (deliver lasting test_environment 7 "wh_b" test_webhook_event "msg_1" 1 test_world).1.requests
    ≡ test_world.requests
deliver_is_guarded_example =
    deliver_is_guarded lasting test_environment 7 "wh_b" test_webhook_event "msg_1" 1 test_world
      (inr foreign_delivery)
