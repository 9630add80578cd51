-- ===== src/Model/Status/Messages.antt =====
-- core/delivery-model.ts and core/types.ts: `===` on the enumerations of a message and of its email.
use hayasend.Base.{ℕ, zero, suc, ◌≡◌, refl, ◌↔◌, true, Eq, nat_beq, enum_beq_iff}
use hayasend.Model.Status.Enums.{EnvelopeRole, DiagnosticCategory, MessageStatus, EmailStatus}

-- Equality of EnvelopeRole is that of the constructors' numbers.
abbrev pub envelope_role_number : EnvelopeRole → ℕ
envelope_role_number EnvelopeRole.to = 0
envelope_role_number EnvelopeRole.cc_role = 1
envelope_role_number EnvelopeRole.bcc = 2

envelope_role_named : ℕ → EnvelopeRole
envelope_role_named zero = EnvelopeRole.to
envelope_role_named (suc zero) = EnvelopeRole.cc_role
envelope_role_named _ = EnvelopeRole.bcc

envelope_role_back : (a : EnvelopeRole) → envelope_role_named (envelope_role_number a) ≡ a
unfolding envelope_role_named
envelope_role_back EnvelopeRole.to = refl
envelope_role_back EnvelopeRole.cc_role = refl
envelope_role_back EnvelopeRole.bcc = refl

pub envelope_role_beq_iff :
    (a b : EnvelopeRole)
    → (nat_beq (envelope_role_number a) (envelope_role_number b) ≡ true) ↔ (a ≡ b)
envelope_role_beq_iff = enum_beq_iff envelope_role_number envelope_role_named envelope_role_back

instance abbrev pub envelope_role_eq : Eq EnvelopeRole
envelope_role_eq = record {
  beq = λ a b. nat_beq (envelope_role_number a) (envelope_role_number b);
  beq_iff = envelope_role_beq_iff;
}

-- Equality of DiagnosticCategory is that of the constructors' numbers.
abbrev pub diagnostic_category_number : DiagnosticCategory → ℕ
diagnostic_category_number DiagnosticCategory.application_error = 0
diagnostic_category_number DiagnosticCategory.invalid_data = 1
diagnostic_category_number DiagnosticCategory.network_dns = 2
diagnostic_category_number DiagnosticCategory.network_refused = 3
diagnostic_category_number DiagnosticCategory.network_reset = 4
diagnostic_category_number DiagnosticCategory.provider_error = 5
diagnostic_category_number DiagnosticCategory.provider_rejected = 6
diagnostic_category_number DiagnosticCategory.provider_throttled = 7
diagnostic_category_number DiagnosticCategory.provider_unavailable = 8
diagnostic_category_number DiagnosticCategory.timeout = 9

diagnostic_category_named : ℕ → DiagnosticCategory
diagnostic_category_named zero = DiagnosticCategory.application_error
diagnostic_category_named (suc zero) = DiagnosticCategory.invalid_data
diagnostic_category_named (suc (suc zero)) = DiagnosticCategory.network_dns
diagnostic_category_named (suc (suc (suc zero))) = DiagnosticCategory.network_refused
diagnostic_category_named (suc (suc (suc (suc zero)))) = DiagnosticCategory.network_reset
diagnostic_category_named (suc (suc (suc (suc (suc zero))))) = DiagnosticCategory.provider_error
diagnostic_category_named (suc (suc (suc (suc (suc (suc zero)))))) =
    DiagnosticCategory.provider_rejected
diagnostic_category_named (suc (suc (suc (suc (suc (suc (suc zero))))))) =
    DiagnosticCategory.provider_throttled
diagnostic_category_named (suc (suc (suc (suc (suc (suc (suc (suc zero)))))))) =
    DiagnosticCategory.provider_unavailable
diagnostic_category_named _ = DiagnosticCategory.timeout

diagnostic_category_back :
    (a : DiagnosticCategory) → diagnostic_category_named (diagnostic_category_number a) ≡ a
unfolding diagnostic_category_named
diagnostic_category_back DiagnosticCategory.application_error = refl
diagnostic_category_back DiagnosticCategory.invalid_data = refl
diagnostic_category_back DiagnosticCategory.network_dns = refl
diagnostic_category_back DiagnosticCategory.network_refused = refl
diagnostic_category_back DiagnosticCategory.network_reset = refl
diagnostic_category_back DiagnosticCategory.provider_error = refl
diagnostic_category_back DiagnosticCategory.provider_rejected = refl
diagnostic_category_back DiagnosticCategory.provider_throttled = refl
diagnostic_category_back DiagnosticCategory.provider_unavailable = refl
diagnostic_category_back DiagnosticCategory.timeout = refl

pub diagnostic_category_beq_iff :
    (a b : DiagnosticCategory)
    → (nat_beq (diagnostic_category_number a) (diagnostic_category_number b) ≡ true) ↔ (a ≡ b)
diagnostic_category_beq_iff =
    enum_beq_iff diagnostic_category_number diagnostic_category_named diagnostic_category_back

instance abbrev pub diagnostic_category_eq : Eq DiagnosticCategory
diagnostic_category_eq = record {
  beq = λ a b. nat_beq (diagnostic_category_number a) (diagnostic_category_number b);
  beq_iff = diagnostic_category_beq_iff;
}

-- Equality of MessageStatus is that of the constructors' numbers.
abbrev pub message_status_number : MessageStatus → ℕ
message_status_number MessageStatus.queued = 0
message_status_number MessageStatus.scheduled = 1
message_status_number MessageStatus.sending = 2
message_status_number MessageStatus.accepted = 3
message_status_number MessageStatus.partially_delivered = 4
message_status_number MessageStatus.delivered = 5
message_status_number MessageStatus.delivery_delayed = 6
message_status_number MessageStatus.bounced = 7
message_status_number MessageStatus.complained = 8
message_status_number MessageStatus.failed = 9
message_status_number MessageStatus.canceled = 10
message_status_number MessageStatus.suppressed = 11

message_status_named : ℕ → MessageStatus
message_status_named zero = MessageStatus.queued
message_status_named (suc zero) = MessageStatus.scheduled
message_status_named (suc (suc zero)) = MessageStatus.sending
message_status_named (suc (suc (suc zero))) = MessageStatus.accepted
message_status_named (suc (suc (suc (suc zero)))) = MessageStatus.partially_delivered
message_status_named (suc (suc (suc (suc (suc zero))))) = MessageStatus.delivered
message_status_named (suc (suc (suc (suc (suc (suc zero)))))) = MessageStatus.delivery_delayed
message_status_named (suc (suc (suc (suc (suc (suc (suc zero))))))) = MessageStatus.bounced
message_status_named (suc (suc (suc (suc (suc (suc (suc (suc zero)))))))) = MessageStatus.complained
message_status_named (suc (suc (suc (suc (suc (suc (suc (suc (suc zero))))))))) =
    MessageStatus.failed
message_status_named (suc (suc (suc (suc (suc (suc (suc (suc (suc (suc zero)))))))))) =
    MessageStatus.canceled
message_status_named _ = MessageStatus.suppressed

message_status_back : (a : MessageStatus) → message_status_named (message_status_number a) ≡ a
unfolding message_status_named
message_status_back MessageStatus.queued = refl
message_status_back MessageStatus.scheduled = refl
message_status_back MessageStatus.sending = refl
message_status_back MessageStatus.accepted = refl
message_status_back MessageStatus.partially_delivered = refl
message_status_back MessageStatus.delivered = refl
message_status_back MessageStatus.delivery_delayed = refl
message_status_back MessageStatus.bounced = refl
message_status_back MessageStatus.complained = refl
message_status_back MessageStatus.failed = refl
message_status_back MessageStatus.canceled = refl
message_status_back MessageStatus.suppressed = refl

pub message_status_beq_iff :
    (a b : MessageStatus)
    → (nat_beq (message_status_number a) (message_status_number b) ≡ true) ↔ (a ≡ b)
message_status_beq_iff = enum_beq_iff message_status_number message_status_named message_status_back

instance abbrev pub message_status_eq : Eq MessageStatus
message_status_eq = record {
  beq = λ a b. nat_beq (message_status_number a) (message_status_number b);
  beq_iff = message_status_beq_iff;
}

-- Equality of EmailStatus is that of the constructors' numbers.
abbrev pub email_status_number : EmailStatus → ℕ
email_status_number EmailStatus.queued = 0
email_status_number EmailStatus.scheduled = 1
email_status_number EmailStatus.sending = 2
email_status_number EmailStatus.sent = 3
email_status_number EmailStatus.delivered = 4
email_status_number EmailStatus.delivery_delayed = 5
email_status_number EmailStatus.opened = 6
email_status_number EmailStatus.clicked = 7
email_status_number EmailStatus.bounced = 8
email_status_number EmailStatus.complained = 9
email_status_number EmailStatus.failed = 10
email_status_number EmailStatus.canceled = 11
email_status_number EmailStatus.suppressed = 12

email_status_named : ℕ → EmailStatus
email_status_named zero = EmailStatus.queued
email_status_named (suc zero) = EmailStatus.scheduled
email_status_named (suc (suc zero)) = EmailStatus.sending
email_status_named (suc (suc (suc zero))) = EmailStatus.sent
email_status_named (suc (suc (suc (suc zero)))) = EmailStatus.delivered
email_status_named (suc (suc (suc (suc (suc zero))))) = EmailStatus.delivery_delayed
email_status_named (suc (suc (suc (suc (suc (suc zero)))))) = EmailStatus.opened
email_status_named (suc (suc (suc (suc (suc (suc (suc zero))))))) = EmailStatus.clicked
email_status_named (suc (suc (suc (suc (suc (suc (suc (suc zero)))))))) = EmailStatus.bounced
email_status_named (suc (suc (suc (suc (suc (suc (suc (suc (suc zero))))))))) =
    EmailStatus.complained
email_status_named (suc (suc (suc (suc (suc (suc (suc (suc (suc (suc zero)))))))))) =
    EmailStatus.failed
email_status_named (suc (suc (suc (suc (suc (suc (suc (suc (suc (suc (suc zero))))))))))) =
    EmailStatus.canceled
email_status_named _ = EmailStatus.suppressed

email_status_back : (a : EmailStatus) → email_status_named (email_status_number a) ≡ a
unfolding email_status_named
email_status_back EmailStatus.queued = refl
email_status_back EmailStatus.scheduled = refl
email_status_back EmailStatus.sending = refl
email_status_back EmailStatus.sent = refl
email_status_back EmailStatus.delivered = refl
email_status_back EmailStatus.delivery_delayed = refl
email_status_back EmailStatus.opened = refl
email_status_back EmailStatus.clicked = refl
email_status_back EmailStatus.bounced = refl
email_status_back EmailStatus.complained = refl
email_status_back EmailStatus.failed = refl
email_status_back EmailStatus.canceled = refl
email_status_back EmailStatus.suppressed = refl

pub email_status_beq_iff :
    (a b : EmailStatus) → (nat_beq (email_status_number a) (email_status_number b) ≡ true) ↔ (a ≡ b)
email_status_beq_iff = enum_beq_iff email_status_number email_status_named email_status_back

instance abbrev pub email_status_eq : Eq EmailStatus
email_status_eq = record {
  beq = λ a b. nat_beq (email_status_number a) (email_status_number b);
  beq_iff = email_status_beq_iff;
}
