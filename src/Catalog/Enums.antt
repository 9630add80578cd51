-- ===== src/Catalog/Enums.antt =====
-- core/types.ts: the enumerations of webhooks and of API keys, and `===` on them.
use hayasend.Base.{ℕ, zero, suc, ◌≡◌, refl, ◌↔◌, true, Eq, nat_beq, enum_beq_iff}

pub data WebhookEventType : Type 0 where
  sent delivered delivery_delayed opened clicked bounced complained failed scheduled suppressed
        received :
      WebhookEventType

pub data ApiScope : Type 0 where
  everything emails_send emails_read diagnostics_read templates_read templates_write domains_read
        domains_write webhooks_read webhooks_write suppressions_read suppressions_write
        api_keys_read api_keys_write :
      ApiScope

pub data WebhookStatus : Type 0 where
  enabled disabled : WebhookStatus

pub data WebhookDeliveryStatus : Type 0 where
  pending delivering succeeded failed cancelled : WebhookDeliveryStatus

abbrev pub webhook_event_type_number : WebhookEventType → ℕ
webhook_event_type_number WebhookEventType.sent = 0
webhook_event_type_number WebhookEventType.delivered = 1
webhook_event_type_number WebhookEventType.delivery_delayed = 2
webhook_event_type_number WebhookEventType.opened = 3
webhook_event_type_number WebhookEventType.clicked = 4
webhook_event_type_number WebhookEventType.bounced = 5
webhook_event_type_number WebhookEventType.complained = 6
webhook_event_type_number WebhookEventType.failed = 7
webhook_event_type_number WebhookEventType.scheduled = 8
webhook_event_type_number WebhookEventType.suppressed = 9
webhook_event_type_number WebhookEventType.received = 10

webhook_event_type_named : ℕ → WebhookEventType
webhook_event_type_named zero = WebhookEventType.sent
webhook_event_type_named (suc zero) = WebhookEventType.delivered
webhook_event_type_named (suc (suc zero)) = WebhookEventType.delivery_delayed
webhook_event_type_named (suc (suc (suc zero))) = WebhookEventType.opened
webhook_event_type_named (suc (suc (suc (suc zero)))) = WebhookEventType.clicked
webhook_event_type_named (suc (suc (suc (suc (suc zero))))) = WebhookEventType.bounced
webhook_event_type_named (suc (suc (suc (suc (suc (suc zero)))))) = WebhookEventType.complained
webhook_event_type_named (suc (suc (suc (suc (suc (suc (suc zero))))))) = WebhookEventType.failed
webhook_event_type_named (suc (suc (suc (suc (suc (suc (suc (suc zero)))))))) =
    WebhookEventType.scheduled
webhook_event_type_named (suc (suc (suc (suc (suc (suc (suc (suc (suc zero))))))))) =
    WebhookEventType.suppressed
webhook_event_type_named _ = WebhookEventType.received

webhook_event_type_back :
    (a : WebhookEventType) → webhook_event_type_named (webhook_event_type_number a) ≡ a
unfolding webhook_event_type_named
webhook_event_type_back WebhookEventType.sent = refl
webhook_event_type_back WebhookEventType.delivered = refl
webhook_event_type_back WebhookEventType.delivery_delayed = refl
webhook_event_type_back WebhookEventType.opened = refl
webhook_event_type_back WebhookEventType.clicked = refl
webhook_event_type_back WebhookEventType.bounced = refl
webhook_event_type_back WebhookEventType.complained = refl
webhook_event_type_back WebhookEventType.failed = refl
webhook_event_type_back WebhookEventType.scheduled = refl
webhook_event_type_back WebhookEventType.suppressed = refl
webhook_event_type_back WebhookEventType.received = refl

pub webhook_event_type_beq_iff :
    (a b : WebhookEventType)
    → (nat_beq (webhook_event_type_number a) (webhook_event_type_number b) ≡ true) ↔ (a ≡ b)
webhook_event_type_beq_iff =
    enum_beq_iff webhook_event_type_number webhook_event_type_named webhook_event_type_back

instance abbrev pub webhook_event_type_eq : Eq WebhookEventType
webhook_event_type_eq = record {
  beq = λ a b. nat_beq (webhook_event_type_number a) (webhook_event_type_number b);
  beq_iff = webhook_event_type_beq_iff;
}

abbrev pub api_scope_number : ApiScope → ℕ
api_scope_number ApiScope.everything = 0
api_scope_number ApiScope.emails_send = 1
api_scope_number ApiScope.emails_read = 2
api_scope_number ApiScope.diagnostics_read = 3
api_scope_number ApiScope.templates_read = 4
api_scope_number ApiScope.templates_write = 5
api_scope_number ApiScope.domains_read = 6
api_scope_number ApiScope.domains_write = 7
api_scope_number ApiScope.webhooks_read = 8
api_scope_number ApiScope.webhooks_write = 9
api_scope_number ApiScope.suppressions_read = 10
api_scope_number ApiScope.suppressions_write = 11
api_scope_number ApiScope.api_keys_read = 12
api_scope_number ApiScope.api_keys_write = 13

api_scope_named : ℕ → ApiScope
api_scope_named zero = ApiScope.everything
api_scope_named (suc zero) = ApiScope.emails_send
api_scope_named (suc (suc zero)) = ApiScope.emails_read
api_scope_named (suc (suc (suc zero))) = ApiScope.diagnostics_read
api_scope_named (suc (suc (suc (suc zero)))) = ApiScope.templates_read
api_scope_named (suc (suc (suc (suc (suc zero))))) = ApiScope.templates_write
api_scope_named (suc (suc (suc (suc (suc (suc zero)))))) = ApiScope.domains_read
api_scope_named (suc (suc (suc (suc (suc (suc (suc zero))))))) = ApiScope.domains_write
api_scope_named (suc (suc (suc (suc (suc (suc (suc (suc zero)))))))) = ApiScope.webhooks_read
api_scope_named (suc (suc (suc (suc (suc (suc (suc (suc (suc zero))))))))) = ApiScope.webhooks_write
api_scope_named (suc (suc (suc (suc (suc (suc (suc (suc (suc (suc zero)))))))))) =
    ApiScope.suppressions_read
api_scope_named (suc (suc (suc (suc (suc (suc (suc (suc (suc (suc (suc zero))))))))))) =
    ApiScope.suppressions_write
api_scope_named (suc (suc (suc (suc (suc (suc (suc (suc (suc (suc (suc (suc zero)))))))))))) =
    ApiScope.api_keys_read
api_scope_named _ = ApiScope.api_keys_write

api_scope_back : (a : ApiScope) → api_scope_named (api_scope_number a) ≡ a
unfolding api_scope_named
api_scope_back ApiScope.everything = refl
api_scope_back ApiScope.emails_send = refl
api_scope_back ApiScope.emails_read = refl
api_scope_back ApiScope.diagnostics_read = refl
api_scope_back ApiScope.templates_read = refl
api_scope_back ApiScope.templates_write = refl
api_scope_back ApiScope.domains_read = refl
api_scope_back ApiScope.domains_write = refl
api_scope_back ApiScope.webhooks_read = refl
api_scope_back ApiScope.webhooks_write = refl
api_scope_back ApiScope.suppressions_read = refl
api_scope_back ApiScope.suppressions_write = refl
api_scope_back ApiScope.api_keys_read = refl
api_scope_back ApiScope.api_keys_write = refl

pub api_scope_beq_iff :
    (a b : ApiScope) → (nat_beq (api_scope_number a) (api_scope_number b) ≡ true) ↔ (a ≡ b)
api_scope_beq_iff = enum_beq_iff api_scope_number api_scope_named api_scope_back

instance abbrev pub api_scope_eq : Eq ApiScope
api_scope_eq = record {
  beq = λ a b. nat_beq (api_scope_number a) (api_scope_number b);
  beq_iff = api_scope_beq_iff;
}

abbrev pub webhook_status_number : WebhookStatus → ℕ
webhook_status_number WebhookStatus.enabled = 0
webhook_status_number WebhookStatus.disabled = 1

webhook_status_named : ℕ → WebhookStatus
webhook_status_named zero = WebhookStatus.enabled
webhook_status_named _ = WebhookStatus.disabled

webhook_status_back : (a : WebhookStatus) → webhook_status_named (webhook_status_number a) ≡ a
unfolding webhook_status_named
webhook_status_back WebhookStatus.enabled = refl
webhook_status_back WebhookStatus.disabled = refl

pub webhook_status_beq_iff :
    (a b : WebhookStatus)
    → (nat_beq (webhook_status_number a) (webhook_status_number b) ≡ true) ↔ (a ≡ b)
webhook_status_beq_iff = enum_beq_iff webhook_status_number webhook_status_named webhook_status_back

instance abbrev pub webhook_status_eq : Eq WebhookStatus
webhook_status_eq = record {
  beq = λ a b. nat_beq (webhook_status_number a) (webhook_status_number b);
  beq_iff = webhook_status_beq_iff;
}

abbrev pub webhook_delivery_status_number : WebhookDeliveryStatus → ℕ
webhook_delivery_status_number WebhookDeliveryStatus.pending = 0
webhook_delivery_status_number WebhookDeliveryStatus.delivering = 1
webhook_delivery_status_number WebhookDeliveryStatus.succeeded = 2
webhook_delivery_status_number WebhookDeliveryStatus.failed = 3
webhook_delivery_status_number WebhookDeliveryStatus.cancelled = 4

webhook_delivery_status_named : ℕ → WebhookDeliveryStatus
webhook_delivery_status_named zero = WebhookDeliveryStatus.pending
webhook_delivery_status_named (suc zero) = WebhookDeliveryStatus.delivering
webhook_delivery_status_named (suc (suc zero)) = WebhookDeliveryStatus.succeeded
webhook_delivery_status_named (suc (suc (suc zero))) = WebhookDeliveryStatus.failed
webhook_delivery_status_named _ = WebhookDeliveryStatus.cancelled

webhook_delivery_status_back :
    (a : WebhookDeliveryStatus)
    → webhook_delivery_status_named (webhook_delivery_status_number a) ≡ a
unfolding webhook_delivery_status_named
webhook_delivery_status_back WebhookDeliveryStatus.pending = refl
webhook_delivery_status_back WebhookDeliveryStatus.delivering = refl
webhook_delivery_status_back WebhookDeliveryStatus.succeeded = refl
webhook_delivery_status_back WebhookDeliveryStatus.failed = refl
webhook_delivery_status_back WebhookDeliveryStatus.cancelled = refl

pub webhook_delivery_status_beq_iff :
    (a b : WebhookDeliveryStatus)
    → (nat_beq (webhook_delivery_status_number a) (webhook_delivery_status_number b) ≡ true)
      ↔ (a ≡ b)
webhook_delivery_status_beq_iff =
    enum_beq_iff webhook_delivery_status_number webhook_delivery_status_named
      webhook_delivery_status_back

instance abbrev pub webhook_delivery_status_eq : Eq WebhookDeliveryStatus
webhook_delivery_status_eq = record {
  beq = λ a b. nat_beq (webhook_delivery_status_number a) (webhook_delivery_status_number b);
  beq_iff = webhook_delivery_status_beq_iff;
}
