-- ===== src/Model/Status/Enums.antt =====
-- core/delivery-model.ts and core/types.ts: the enumerations of the delivery records.
pub data EnvelopeRole : Type 0 where
  to cc_role bcc : EnvelopeRole

pub data DiagnosticCategory : Type 0 where
  application_error invalid_data network_dns network_refused network_reset : DiagnosticCategory
  provider_error provider_rejected provider_throttled provider_unavailable : DiagnosticCategory
  timeout : DiagnosticCategory

pub data MessageStatus : Type 0 where
  queued scheduled sending accepted partially_delivered delivered : MessageStatus
  delivery_delayed bounced complained failed canceled suppressed : MessageStatus

pub data RecipientStatus : Type 0 where
  queued sending accepted delivery_delayed delivered opened clicked : RecipientStatus
  bounced complained rejected failed suppressed canceled : RecipientStatus

pub data AttemptStatus : Type 0 where
  pending submitting accepted ambiguous retryable_failed permanent_failed : AttemptStatus

pub data EventType : Type 0 where
  accepted delivered delayed bounced complained rejected opened clicked failed : EventType

pub data JobType : Type 0 where
  dispatch_message wake_scheduled_message reconcile_message : JobType

-- EmailStatus of core/types.ts.
pub data EmailStatus : Type 0 where
  queued scheduled sending sent delivered delivery_delayed opened clicked : EmailStatus
  bounced complained failed canceled suppressed : EmailStatus
