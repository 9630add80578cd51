-- ===== src/Catalog/Records.antt =====
-- core/types.ts: the records that the store keeps beside the delivery ledgers.
use hayasend.Base.{ℕ, String, Bool, List, Option}
use hayasend.Json.{Fields}
use hayasend.Catalog.Enums.{WebhookEventType, ApiScope, WebhookStatus, WebhookDeliveryStatus}

pub record AttachmentUploadRecord : Type 0 where
  pub id : String
  pub filename : String
  pub content_type : String
  pub size_bytes : ℕ
  pub checksum_sha256 : String
  pub object_key : String
  pub upload_token_hash : String
  pub created_at : String
  pub upload_expires_at : String
  pub expires_at : String

pub data ContentDisposition : Type 0 where
  inline attachment : ContentDisposition

pub record ReceivedEmailAttachment : Type 0 where
  pub id : String
  pub filename : String
  pub size : ℕ
  pub content_type : String
  pub content_disposition : Option ContentDisposition
  pub content_id : Option String
  pub object_key : String

pub record ReceivedEmailRecord : Type 0 where
  pub id : String
  pub provider_message_id : String
  pub message_id : String
  pub sender : String
  pub recipients : List String
  pub received_for : List String
  pub bcc : List String
  pub cc_list : List String
  pub reply_to : List String
  pub subject : String
  pub created_at : String
  pub raw_object_key : String
  pub content_object_key : String
  pub attachments : List ReceivedEmailAttachment
  pub content_truncated : Bool
  pub expires_at : String
  pub webhook_queued_at : Option String

pub data TemplateVariableType : Type 0 where
  text number : TemplateVariableType

-- `string | number | null`; a number is its text, and whether it is a finite safe integer.
pub data FallbackValue : Type 0 where
  text : String → FallbackValue
  number : String → Bool → FallbackValue
  null : FallbackValue

pub record TemplateVariable : Type 0 where
  pub id : String
  pub key : String
  pub kind : TemplateVariableType
  pub fallback_value : FallbackValue
  pub created_at : String
  pub updated_at : String

pub record TemplateVersion : Type 0 where
  pub id : String
  pub name : String
  pub html : String
  pub text : Option String
  pub alias : Option String
  pub sender : Option String
  pub subject : Option String
  pub reply_to : Option (List String)
  pub variables : List TemplateVariable
  pub created_at : String
  pub source_version_id : Option String

pub data TemplatePublicationSource : Type 0 where
  api cli : TemplatePublicationSource

pub record TemplatePublicationActor : Type 0 where
  pub id : String
  pub name : String

pub record TemplatePublicationRecord : Type 0 where
  pub id : String
  pub template_id : String
  pub version : TemplateVersion
  pub published_at : String
  pub expires_at : String
  pub actor : TemplatePublicationActor
  pub source : TemplatePublicationSource
  pub source_version_id : Option String

pub record TemplateRecord : Type 0 where
  pub id : String
  pub created_at : String
  pub updated_at : String
  pub revision : ℕ
  pub draft : TemplateVersion
  pub published : Option TemplateVersion
  pub published_at : Option String

pub data DnsRecordKind : Type 0 where
  spf dkim dmarc mx : DnsRecordKind

pub data DnsRecordType : Type 0 where
  txt cname mx : DnsRecordType

pub data DnsRecordStatus : Type 0 where
  pending verified failed : DnsRecordStatus

pub record DomainDnsRecord : Type 0 where
  pub kind : DnsRecordKind
  pub name : String
  pub dns_type : DnsRecordType
  pub value : String
  pub status : DnsRecordStatus
  pub priority : Option ℕ

pub data DomainStatus : Type 0 where
  not_started pending verified failed : DomainStatus

pub record DomainRecord : Type 0 where
  pub id : String
  pub name : String
  pub status : DomainStatus
  pub region : String
  pub created_at : String
  pub updated_at : String
  pub records : List DomainDnsRecord

pub record WebhookEndpoint : Type 0 where
  pub id : String
  pub endpoint : String
  pub events : List WebhookEventType
  pub signing_secret : String
  pub status : WebhookStatus
  pub created_at : String

-- WebhookEvent's `data`; `extra` holds its further fields.
pub record WebhookEventData : Type 0 where
  pub created_at : String
  pub email_id : String
  pub sender : String
  pub recipients : List String
  pub subject : String
  pub extra : Fields

pub record WebhookEvent : Type 0 where
  pub kind : WebhookEventType
  pub created_at : String
  pub contents : WebhookEventData

pub record WebhookDeliveryRecord : Type 0 where
  pub id : String
  pub webhook_id : String
  pub event_type : WebhookEventType
  pub event : WebhookEvent
  pub status : WebhookDeliveryStatus
  pub attempts : ℕ
  pub response_status : Option ℕ
  pub last_error : Option String
  pub last_attempt_at : Option String
  pub replayed_from : Option String
  pub created_at : String
  pub updated_at : String
  pub expires_at : String

pub record ApiKeyRecord : Type 0 where
  pub id : String
  pub name : String
  pub prefix : String
  pub key_hash : String
  pub scopes : List ApiScope
  pub created_at : String
  pub expires_at : Option String
  pub revoked_at : Option String

pub data SuppressionReason : Type 0 where
  bounce complaint manual : SuppressionReason

pub record SuppressionRecord : Type 0 where
  pub id : String
  pub email : String
  pub reason : SuppressionReason
  pub created_at : String
  pub updated_at : String
  pub source_email_id : Option String
  pub detail : Option String
