-- ===== src/Catalog/Items.antt =====
-- adapters/memory-store.ts: uploads, received emails and their claims, domains, webhooks and their
-- deliveries, keys and suppressions. A structured clone is the value itself. `now` is Date.now().
use hayasend.Base.{
  ℕ, String, Bool, true, false, ◌&&◌, Option, none, some, Result, ltb, leb, if◌then◌else◌, ◌==◌,
  string_eq, nat_eq, option_eq, filter_by,
}
use hayasend.Base.Assoc.{Assoc, get, has, put, remove, values}
use hayasend.Platform.{Platform, not_after}
use hayasend.Store.Pages.{Page, page_from_map}
use hayasend.Catalog.Records.{
  AttachmentUploadRecord, ReceivedEmailRecord, DomainRecord, WebhookEndpoint, WebhookDeliveryRecord,
  ApiKeyRecord, SuppressionRecord,
}
use hayasend.Catalog.State.{CatalogStore}

unfoldable pub put_attachment_upload : AttachmentUploadRecord → CatalogStore → CatalogStore
put_attachment_upload r s = record s { attachment_uploads = put r.id r s.attachment_uploads }

unfoldable pub get_attachment_upload : String → CatalogStore → Option AttachmentUploadRecord
get_attachment_upload id s = get id s.attachment_uploads

-- `currentLease !== undefined && currentLease >= now`
unfoldable pub lease_held : Option ℕ → ℕ → Bool
lease_held none now = false
lease_held (some lease) now = leb now lease

unfoldable pub claim_received_email : String → ℕ → ℕ → CatalogStore → Bool × CatalogStore
claim_received_email id now lease_until s =
    if lease_held (get id s.received_claims) now
    then (false, s)
    else (true, record s { received_claims = put id lease_until s.received_claims })

unfoldable pub release_received_email_claim : String → ℕ → CatalogStore → CatalogStore
release_received_email_claim id lease_until s =
    if get id s.received_claims == some lease_until
    then record s { received_claims = remove id s.received_claims }
    else s

unfoldable pub create_received_email : ReceivedEmailRecord → CatalogStore → Bool × CatalogStore
create_received_email r s =
    if has r.id s.received_emails
    then (false, s)
    else (true, record s { received_emails = put r.id r s.received_emails })

unfoldable pub get_received_email : String → CatalogStore → Option ReceivedEmailRecord
get_received_email id s = get id s.received_emails

-- `{ ...record, ...updates }` in a map, where the record is there; `updates` sets the fields of a
-- partial record.
unfoldable pub updated_in {ℓ} :
    {R : Type ℓ} → String → (R → R) → Option R → Assoc R → Option R × Assoc R
updated_in id updates none m = (none, m)
updated_in id updates (some r) m = (some (updates r), put id (updates r) m)

unfoldable pub update_received_email :
    String
    → (ReceivedEmailRecord → ReceivedEmailRecord)
    → CatalogStore
    → Option ReceivedEmailRecord × CatalogStore
update_received_email id updates s =
    let (r, m) = updated_in id updates (get id s.received_emails) s.received_emails in
    (r, record s { received_emails = m })

-- Date.parse(expires_at) > now, false on NaN
unfoldable pub unexpired : Platform → String → ℕ → Bool
unexpired p expires_at now = elim (p.date_parse expires_at) [ none ↦ false | some t ↦ ltb now t ]

unfoldable pub list_received_emails :
    Platform → ℕ → Option String → ℕ → CatalogStore → Result (Page ReceivedEmailRecord)
list_received_emails p limit cursor now s =
    page_from_map (λ r. r.id) p (λ r. r.created_at)
      (filter_by (λ r. unexpired p r.expires_at now) (values s.received_emails)) limit cursor

unfoldable pub create_domain : DomainRecord → CatalogStore → CatalogStore
create_domain r s = record s { domains = put r.id r s.domains }

unfoldable pub get_domain : String → CatalogStore → Option DomainRecord
get_domain id s = get id s.domains

unfoldable pub update_domain :
    String → (DomainRecord → DomainRecord) → CatalogStore → Option DomainRecord × CatalogStore
update_domain id updates s =
    let (r, m) = updated_in id updates (get id s.domains) s.domains in (r, record s { domains = m })

unfoldable pub delete_domain : String → CatalogStore → Bool × CatalogStore
delete_domain id s = (has id s.domains, record s { domains = remove id s.domains })

unfoldable pub list_domains :
    Platform → ℕ → Option String → CatalogStore → Result (Page DomainRecord)
list_domains p limit cursor s =
    page_from_map (λ r. r.id) p (λ r. r.created_at) (values s.domains) limit cursor

unfoldable pub create_webhook : WebhookEndpoint → CatalogStore → CatalogStore
create_webhook r s = record s { webhooks = put r.id r s.webhooks }

unfoldable pub get_webhook : String → CatalogStore → Option WebhookEndpoint
get_webhook id s = get id s.webhooks

unfoldable pub update_webhook :
    String
    → (WebhookEndpoint → WebhookEndpoint)
    → CatalogStore
    → Option WebhookEndpoint × CatalogStore
update_webhook id updates s =
    let (r, m) = updated_in id updates (get id s.webhooks) s.webhooks in
    (r, record s { webhooks = m })

unfoldable pub delete_webhook : String → CatalogStore → Bool × CatalogStore
delete_webhook id s = (has id s.webhooks, record s { webhooks = remove id s.webhooks })

unfoldable pub list_webhooks :
    Platform → ℕ → Option String → CatalogStore → Result (Page WebhookEndpoint)
list_webhooks p limit cursor s =
    page_from_map (λ r. r.id) p (λ r. r.created_at) (values s.webhooks) limit cursor

unfoldable pub create_webhook_delivery : WebhookDeliveryRecord → CatalogStore → Bool × CatalogStore
create_webhook_delivery r s =
    if has r.id s.webhook_deliveries
    then (false, s)
    else (true, record s { webhook_deliveries = put r.id r s.webhook_deliveries })

-- `!record || Date.parse(record.expires_at) <= Date.now()`
unfoldable pub live_delivery :
    Platform → ℕ → Option WebhookDeliveryRecord → Option WebhookDeliveryRecord
live_delivery p now none = none
live_delivery p now (some r) = if not_after p r.expires_at now then none else some r

unfoldable pub get_webhook_delivery :
    Platform → String → ℕ → CatalogStore → Option WebhookDeliveryRecord
get_webhook_delivery p id now s = live_delivery p now (get id s.webhook_deliveries)

unfoldable pub update_webhook_delivery :
    Platform
    → String
    → (WebhookDeliveryRecord → WebhookDeliveryRecord)
    → ℕ
    → CatalogStore
    → Option WebhookDeliveryRecord × CatalogStore
update_webhook_delivery p id updates now s =
    let (r, m) = updated_in id updates (get_webhook_delivery p id now s) s.webhook_deliveries in
    (r, record s { webhook_deliveries = m })

unfoldable pub list_webhook_deliveries :
    Platform → String → ℕ → Option String → ℕ → CatalogStore → Result (Page WebhookDeliveryRecord)
list_webhook_deliveries p webhook_id limit cursor now s =
    page_from_map (λ r. r.id) p (λ r. r.created_at)
      (filter_by (λ r. r.webhook_id == webhook_id && unexpired p r.expires_at now)
        (values s.webhook_deliveries))
      limit cursor

unfoldable pub create_api_key : ApiKeyRecord → CatalogStore → CatalogStore
create_api_key r s = record s { api_keys = put r.id r s.api_keys }

unfoldable pub get_api_key : String → CatalogStore → Option ApiKeyRecord
get_api_key id s = get id s.api_keys

unfoldable pub update_api_key :
    String → (ApiKeyRecord → ApiKeyRecord) → CatalogStore → Option ApiKeyRecord × CatalogStore
update_api_key id updates s =
    let (r, m) = updated_in id updates (get id s.api_keys) s.api_keys in
    (r, record s { api_keys = m })

unfoldable pub list_api_keys :
    Platform → ℕ → Option String → CatalogStore → Result (Page ApiKeyRecord)
list_api_keys p limit cursor s =
    page_from_map (λ r. r.id) p (λ r. r.created_at) (values s.api_keys) limit cursor

unfoldable pub put_suppression : SuppressionRecord → CatalogStore → CatalogStore
put_suppression r s = record s { suppressions = put r.id r s.suppressions }

unfoldable pub get_suppression : String → CatalogStore → Option SuppressionRecord
get_suppression email_hash s = get email_hash s.suppressions

unfoldable pub delete_suppression : String → CatalogStore → Bool × CatalogStore
delete_suppression email_hash s =
    (has email_hash s.suppressions, record s { suppressions = remove email_hash s.suppressions })

unfoldable pub list_suppressions :
    Platform → ℕ → Option String → CatalogStore → Result (Page SuppressionRecord)
list_suppressions p limit cursor s =
    page_from_map (λ r. r.id) p (λ r. r.created_at) (values s.suppressions) limit cursor
