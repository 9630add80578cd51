-- ===== src/Catalog/State.antt =====
-- adapters/memory-store.ts: the maps of the store beside those of deliveries. No operation touches
-- maps of both kinds, so they are a state of their own.
use hayasend.Base.{ℕ, String}
use hayasend.Base.Assoc.{Assoc}
use hayasend.Catalog.Records.{
  AttachmentUploadRecord, ReceivedEmailRecord, TemplateRecord, TemplatePublicationRecord,
  DomainRecord, WebhookEndpoint, WebhookDeliveryRecord, ApiKeyRecord, SuppressionRecord,
}

pub record TemplateStore : Type 0 where
  pub templates : Assoc TemplateRecord
  pub template_aliases : Assoc String
  pub published_template_aliases : Assoc String
  pub template_versions : Assoc (Assoc TemplatePublicationRecord)

pub record CatalogStore : Type 0 where
  pub attachment_uploads : Assoc AttachmentUploadRecord
  pub received_emails : Assoc ReceivedEmailRecord
  pub received_claims : Assoc ℕ
  pub domains : Assoc DomainRecord
  pub webhooks : Assoc WebhookEndpoint
  pub webhook_deliveries : Assoc WebhookDeliveryRecord
  pub api_keys : Assoc ApiKeyRecord
  pub suppressions : Assoc SuppressionRecord
