-- ===== src/Model/Status/Recipients.antt =====
-- core/delivery-model.ts: `===` on the enumerations of recipients, attempts, events and jobs.
use hayasend.Base.{ℕ, zero, suc, ◌≡◌, refl, ◌↔◌, true, Eq, nat_beq, enum_beq_iff}
use hayasend.Model.Status.Enums.{RecipientStatus, AttemptStatus, EventType, JobType}

-- Equality of RecipientStatus is that of the constructors' numbers.
abbrev pub recipient_status_number : RecipientStatus → ℕ
recipient_status_number RecipientStatus.queued = 0
recipient_status_number RecipientStatus.sending = 1
recipient_status_number RecipientStatus.accepted = 2
recipient_status_number RecipientStatus.delivery_delayed = 3
recipient_status_number RecipientStatus.delivered = 4
recipient_status_number RecipientStatus.opened = 5
recipient_status_number RecipientStatus.clicked = 6
recipient_status_number RecipientStatus.bounced = 7
recipient_status_number RecipientStatus.complained = 8
recipient_status_number RecipientStatus.rejected = 9
recipient_status_number RecipientStatus.failed = 10
recipient_status_number RecipientStatus.suppressed = 11
recipient_status_number RecipientStatus.canceled = 12

recipient_status_named : ℕ → RecipientStatus
recipient_status_named zero = RecipientStatus.queued
recipient_status_named (suc zero) = RecipientStatus.sending
recipient_status_named (suc (suc zero)) = RecipientStatus.accepted
recipient_status_named (suc (suc (suc zero))) = RecipientStatus.delivery_delayed
recipient_status_named (suc (suc (suc (suc zero)))) = RecipientStatus.delivered
recipient_status_named (suc (suc (suc (suc (suc zero))))) = RecipientStatus.opened
recipient_status_named (suc (suc (suc (suc (suc (suc zero)))))) = RecipientStatus.clicked
recipient_status_named (suc (suc (suc (suc (suc (suc (suc zero))))))) = RecipientStatus.bounced
recipient_status_named (suc (suc (suc (suc (suc (suc (suc (suc zero)))))))) =
    RecipientStatus.complained
recipient_status_named (suc (suc (suc (suc (suc (suc (suc (suc (suc zero))))))))) =
    RecipientStatus.rejected
recipient_status_named (suc (suc (suc (suc (suc (suc (suc (suc (suc (suc zero)))))))))) =
    RecipientStatus.failed
recipient_status_named (suc (suc (suc (suc (suc (suc (suc (suc (suc (suc (suc zero))))))))))) =
    RecipientStatus.suppressed
recipient_status_named _ = RecipientStatus.canceled

recipient_status_back :
    (a : RecipientStatus) → recipient_status_named (recipient_status_number a) ≡ a
unfolding recipient_status_named
recipient_status_back RecipientStatus.queued = refl
recipient_status_back RecipientStatus.sending = refl
recipient_status_back RecipientStatus.accepted = refl
recipient_status_back RecipientStatus.delivery_delayed = refl
recipient_status_back RecipientStatus.delivered = refl
recipient_status_back RecipientStatus.opened = refl
recipient_status_back RecipientStatus.clicked = refl
recipient_status_back RecipientStatus.bounced = refl
recipient_status_back RecipientStatus.complained = refl
recipient_status_back RecipientStatus.rejected = refl
recipient_status_back RecipientStatus.failed = refl
recipient_status_back RecipientStatus.suppressed = refl
recipient_status_back RecipientStatus.canceled = refl

pub recipient_status_beq_iff :
    (a b : RecipientStatus)
    → (nat_beq (recipient_status_number a) (recipient_status_number b) ≡ true) ↔ (a ≡ b)
recipient_status_beq_iff =
    enum_beq_iff recipient_status_number recipient_status_named recipient_status_back

instance abbrev pub recipient_status_eq : Eq RecipientStatus
recipient_status_eq = record {
  beq = λ a b. nat_beq (recipient_status_number a) (recipient_status_number b);
  beq_iff = recipient_status_beq_iff;
}

-- Equality of AttemptStatus is that of the constructors' numbers.
abbrev pub attempt_status_number : AttemptStatus → ℕ
attempt_status_number AttemptStatus.pending = 0
attempt_status_number AttemptStatus.submitting = 1
attempt_status_number AttemptStatus.accepted = 2
attempt_status_number AttemptStatus.ambiguous = 3
attempt_status_number AttemptStatus.retryable_failed = 4
attempt_status_number AttemptStatus.permanent_failed = 5

attempt_status_named : ℕ → AttemptStatus
attempt_status_named zero = AttemptStatus.pending
attempt_status_named (suc zero) = AttemptStatus.submitting
attempt_status_named (suc (suc zero)) = AttemptStatus.accepted
attempt_status_named (suc (suc (suc zero))) = AttemptStatus.ambiguous
attempt_status_named (suc (suc (suc (suc zero)))) = AttemptStatus.retryable_failed
attempt_status_named _ = AttemptStatus.permanent_failed

attempt_status_back : (a : AttemptStatus) → attempt_status_named (attempt_status_number a) ≡ a
unfolding attempt_status_named
attempt_status_back AttemptStatus.pending = refl
attempt_status_back AttemptStatus.submitting = refl
attempt_status_back AttemptStatus.accepted = refl
attempt_status_back AttemptStatus.ambiguous = refl
attempt_status_back AttemptStatus.retryable_failed = refl
attempt_status_back AttemptStatus.permanent_failed = refl

pub attempt_status_beq_iff :
    (a b : AttemptStatus)
    → (nat_beq (attempt_status_number a) (attempt_status_number b) ≡ true) ↔ (a ≡ b)
attempt_status_beq_iff = enum_beq_iff attempt_status_number attempt_status_named attempt_status_back

instance abbrev pub attempt_status_eq : Eq AttemptStatus
attempt_status_eq = record {
  beq = λ a b. nat_beq (attempt_status_number a) (attempt_status_number b);
  beq_iff = attempt_status_beq_iff;
}

-- Equality of EventType is that of the constructors' numbers.
abbrev pub event_type_number : EventType → ℕ
event_type_number EventType.accepted = 0
event_type_number EventType.delivered = 1
event_type_number EventType.delayed = 2
event_type_number EventType.bounced = 3
event_type_number EventType.complained = 4
event_type_number EventType.rejected = 5
event_type_number EventType.opened = 6
event_type_number EventType.clicked = 7
event_type_number EventType.failed = 8

event_type_named : ℕ → EventType
event_type_named zero = EventType.accepted
event_type_named (suc zero) = EventType.delivered
event_type_named (suc (suc zero)) = EventType.delayed
event_type_named (suc (suc (suc zero))) = EventType.bounced
event_type_named (suc (suc (suc (suc zero)))) = EventType.complained
event_type_named (suc (suc (suc (suc (suc zero))))) = EventType.rejected
event_type_named (suc (suc (suc (suc (suc (suc zero)))))) = EventType.opened
event_type_named (suc (suc (suc (suc (suc (suc (suc zero))))))) = EventType.clicked
event_type_named _ = EventType.failed

event_type_back : (a : EventType) → event_type_named (event_type_number a) ≡ a
unfolding event_type_named
event_type_back EventType.accepted = refl
event_type_back EventType.delivered = refl
event_type_back EventType.delayed = refl
event_type_back EventType.bounced = refl
event_type_back EventType.complained = refl
event_type_back EventType.rejected = refl
event_type_back EventType.opened = refl
event_type_back EventType.clicked = refl
event_type_back EventType.failed = refl

pub event_type_beq_iff :
    (a b : EventType) → (nat_beq (event_type_number a) (event_type_number b) ≡ true) ↔ (a ≡ b)
event_type_beq_iff = enum_beq_iff event_type_number event_type_named event_type_back

instance abbrev pub event_type_eq : Eq EventType
event_type_eq = record {
  beq = λ a b. nat_beq (event_type_number a) (event_type_number b);
  beq_iff = event_type_beq_iff;
}

-- Equality of JobType is that of the constructors' numbers.
abbrev pub job_type_number : JobType → ℕ
job_type_number JobType.dispatch_message = 0
job_type_number JobType.wake_scheduled_message = 1
job_type_number JobType.reconcile_message = 2

job_type_named : ℕ → JobType
job_type_named zero = JobType.dispatch_message
job_type_named (suc zero) = JobType.wake_scheduled_message
job_type_named _ = JobType.reconcile_message

job_type_back : (a : JobType) → job_type_named (job_type_number a) ≡ a
unfolding job_type_named
job_type_back JobType.dispatch_message = refl
job_type_back JobType.wake_scheduled_message = refl
job_type_back JobType.reconcile_message = refl

pub job_type_beq_iff :
    (a b : JobType) → (nat_beq (job_type_number a) (job_type_number b) ≡ true) ↔ (a ≡ b)
job_type_beq_iff = enum_beq_iff job_type_number job_type_named job_type_back

instance abbrev pub job_type_eq : Eq JobType
job_type_eq = record {
  beq = λ a b. nat_beq (job_type_number a) (job_type_number b);
  beq_iff = job_type_beq_iff;
}
