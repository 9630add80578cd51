-- ===== src/Model/Records.antt =====
-- core/delivery-model.ts and core/types.ts: the records. The literal fields `schema_version` and
-- `record_type` have one value each and are left out.
use hayasend.Base.{
  ℕ, ◌≡◌, refl, String, Bool, List, Option, Eq, ◌==◌, record_beq_iff, pair_eq, nat_eq, string_eq,
  option_eq, list_eq, bool_eq, ◌↔◌, true,
}
use hayasend.Model.Status.{
  EnvelopeRole, DiagnosticCategory, MessageStatus, RecipientStatus, AttemptStatus, EventType,
  JobType, EmailStatus, attempt_status_eq, diagnostic_category_eq, event_type_eq,
}
use hayasend.Model.Identity.{EventSource}

pub record ProviderReference : Type 0 where
  pub name : String
  pub adapter_version : String
  pub capability_version : String

pub record DeliveryMessageRecord : Type 0 where
  pub id : String
  pub provider : ProviderReference
  pub intent_digest : String
  pub recipient_ids : List String
  pub status : MessageStatus
  pub created_at : String
  pub updated_at : String
  pub scheduled_at : Option String

pub record RecipientRecord : Type 0 where
  pub id : String
  pub message_id : String
  pub role : EnvelopeRole
  pub ordinal : ℕ
  pub address : String
  pub status : RecipientStatus
  pub latest_attempt_id : Option String
  pub created_at : String
  pub updated_at : String

pub record DeliveryAttemptRecord : Type 0 where
  pub id : String
  pub message_id : String
  pub recipient_ids : List String
  pub sequence : ℕ
  pub provider : ProviderReference
  pub status : AttemptStatus
  pub provider_message_id : Option String
  pub diagnostic_category : Option DiagnosticCategory
  pub started_at : String
  pub completed_at : Option String

-- `type` is a word of the language: the field is `kind`.
pub record ProviderEventRecord : Type 0 where
  pub id : String
  pub provider : ProviderReference
  pub source : EventSource
  pub message_id : String
  pub attempt_id : Option String
  pub recipient_ids : List String
  pub provider_message_id : Option String
  pub kind : EventType
  pub provider_at : String
  pub received_at : String
  pub terminal : Bool
  pub diagnostic_category : Option DiagnosticCategory

pub record OutboxItemRecord : Type 0 where
  pub id : String
  pub message_id : String
  pub job_type : JobType
  pub generation : ℕ
  pub due_at : String
  pub attempts : ℕ
  pub lease_owner : Option String
  pub lease_expires_at : Option String
  pub dispatched_at : Option String
  pub last_diagnostic_category : Option DiagnosticCategory
  pub created_at : String
  pub updated_at : String

-- What a message says and shows, which the delivery core only carries.
pub record EmailContent : Type 0 where
  pub sender : String
  pub recipients : List String
  pub subject : String
  pub html : Option String
  pub text : Option String
  pub payload_ref : Option String

pub record EmailRecord : Type 0 where
  pub id : String
  pub content : EmailContent
  pub status : EmailStatus
  pub last_event : String
  pub scheduled_at : Option String
  pub created_at : String
  pub updated_at : String
  pub provider_id : Option String
  pub request_hash : String
  pub attempts : ℕ
  pub error : Option String
  pub send_lease_until : Option ℕ

abbrev pub provider_reference_fields : ProviderReference → String × (String × (String))
provider_reference_fields r = (r.name, (r.adapter_version, r.capability_version))

abbrev pub provider_reference_of_fields : String × (String × (String)) → ProviderReference
provider_reference_of_fields t = record {
  name = t.0;
  adapter_version = t.1.0;
  capability_version = t.1.1;
}

abbrev pub provider_reference_fields_eq : Eq (String × (String × (String)))
provider_reference_fields_eq = pair_eq

-- Equality of the JSON of two records.
abbrev pub provider_reference_beq : ProviderReference → ProviderReference → Bool
provider_reference_beq a b = provider_reference_fields a == provider_reference_fields b

pub provider_reference_beq_iff :
    (a b : ProviderReference) → (provider_reference_beq a b ≡ true) ↔ (a ≡ b)
provider_reference_beq_iff =
    record_beq_iff provider_reference_fields_eq provider_reference_fields
      provider_reference_of_fields (λ r. refl)

instance abbrev pub provider_reference_eq : Eq ProviderReference
provider_reference_eq = record {
  beq = provider_reference_beq;
  beq_iff = provider_reference_beq_iff;
}

abbrev pub attempt_record_fields :
    DeliveryAttemptRecord
    → String
      × (String
          × (List String
              × (ℕ
                  × (ProviderReference
                      × (AttemptStatus
                          × (Option String
                              × (Option DiagnosticCategory × (String × (Option String)))))))))
attempt_record_fields r = (
  r.id,
  (
    r.message_id,
    (
      r.recipient_ids,
      (
        r.sequence,
        (
          r.provider,
          (
            r.status,
            (r.provider_message_id, (r.diagnostic_category, (r.started_at, r.completed_at))),
          ),
        ),
      ),
    ),
  ),
)

abbrev pub attempt_record_of_fields :
    String
      × (String
          × (List String
              × (ℕ
                  × (ProviderReference
                      × (AttemptStatus
                          × (Option String
                              × (Option DiagnosticCategory × (String × (Option String)))))))))
    → DeliveryAttemptRecord
attempt_record_of_fields t = record {
  id = t.0;
  message_id = t.1.0;
  recipient_ids = t.1.1.0;
  sequence = t.1.1.1.0;
  provider = t.1.1.1.1.0;
  status = t.1.1.1.1.1.0;
  provider_message_id = t.1.1.1.1.1.1.0;
  diagnostic_category = t.1.1.1.1.1.1.1.0;
  started_at = t.1.1.1.1.1.1.1.1.0;
  completed_at = t.1.1.1.1.1.1.1.1.1;
}

abbrev pub attempt_record_fields_eq : Eq (
    String
    × (String
        × (List String
            × (ℕ
                × (ProviderReference
                    × (AttemptStatus
                        × (Option String
                            × (Option DiagnosticCategory × (String × (Option String))))))))))
attempt_record_fields_eq = pair_eq

-- Equality of the JSON of two records.
abbrev pub attempt_record_beq : DeliveryAttemptRecord → DeliveryAttemptRecord → Bool
attempt_record_beq a b = attempt_record_fields a == attempt_record_fields b

pub attempt_record_beq_iff :
    (a b : DeliveryAttemptRecord) → (attempt_record_beq a b ≡ true) ↔ (a ≡ b)
attempt_record_beq_iff =
    record_beq_iff attempt_record_fields_eq attempt_record_fields attempt_record_of_fields
      (λ r. refl)

instance abbrev pub attempt_record_eq : Eq DeliveryAttemptRecord
attempt_record_eq = record { beq = attempt_record_beq; beq_iff = attempt_record_beq_iff }
