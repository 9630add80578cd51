-- ===== src/Ledger/Sound.antt =====
-- Every plan of core/recipient-ledger.ts gives a ledger.
use hayasend.Base.{◌≡◌, String, ok}
use hayasend.Platform.{Platform}
use hayasend.Model.Records.{DeliveryAttemptRecord, ProviderEventRecord}
use hayasend.Ledger.State.{DeliveryLedgerState, DeliveryLedgerPlan}
use hayasend.Ledger.Invariant.{IsLedger}
use hayasend.Ledger.Attempts.{AttemptCompletion, plan_attempt_start, plan_attempt_completion}
use hayasend.Ledger.Attempts.Laws.{plan_attempt_start-eq-ok, plan_attempt_completion-eq-ok}
use hayasend.Ledger.Attempts.Keeps.{PlansStart-IsLedger, PlansCompletion-IsLedger}
use hayasend.Ledger.Events.{LocalStatus, plan_provider_event, plan_local_recipient_state}
use hayasend.Ledger.Events.Laws.{
  plan_provider_event-eq-ok, plan_local_recipient_state-eq-ok, PlansEvent-IsLedger,
  PlansLocal-IsLedger,
}

-- The plan for the start of an attempt is a ledger, of whatever input it was made.
pub plan_attempt_start-IsLedger :
    (p : Platform) (input : DeliveryLedgerState) (a : DeliveryAttemptRecord)
    (planned : DeliveryLedgerPlan × DeliveryAttemptRecord)
    → plan_attempt_start p input a ≡ ok planned
    → IsLedger p planned.0.state
plan_attempt_start-IsLedger p input a (plan, b) h =
    PlansStart-IsLedger p (plan_attempt_start-eq-ok p input a h).0

-- The plan for the completion of an attempt is a ledger, of whatever input it was made.
pub plan_attempt_completion-IsLedger :
    (p : Platform) (input : DeliveryLedgerState) (c : AttemptCompletion)
    (planned : DeliveryLedgerPlan × DeliveryAttemptRecord)
    → plan_attempt_completion p input c ≡ ok planned
    → IsLedger p planned.0.state
plan_attempt_completion-IsLedger p input c (plan, b) h =
    PlansCompletion-IsLedger p (plan_attempt_completion-eq-ok p input c h)

-- The plan for a provider event is a ledger, of whatever input it was made.
pub plan_provider_event-IsLedger :
    (p : Platform) (input : DeliveryLedgerState) (e : ProviderEventRecord)
    (planned : DeliveryLedgerPlan × ProviderEventRecord)
    → plan_provider_event p input e ≡ ok planned
    → IsLedger p planned.0.state
plan_provider_event-IsLedger p input e (plan, x) h =
    PlansEvent-IsLedger p (plan_provider_event-eq-ok p input e h).0

-- The plan for a local state is a ledger, of whatever input it was made.
pub plan_local_recipient_state-IsLedger :
    (p : Platform) (input : DeliveryLedgerState) (status : LocalStatus) (updated_at : String)
    (plan : DeliveryLedgerPlan)
    → plan_local_recipient_state p input status updated_at ≡ ok plan
    → IsLedger p plan.state
plan_local_recipient_state-IsLedger p input status updated_at plan h =
    PlansLocal-IsLedger p (plan_local_recipient_state-eq-ok p input status updated_at h)

-- What one of the four plans gives for a ledger.
pub data Planned (p : Platform) (input : DeliveryLedgerState) : DeliveryLedgerPlan → Type 0 where
  by_start :
      (a : DeliveryAttemptRecord) {planned : DeliveryLedgerPlan × DeliveryAttemptRecord}
      → plan_attempt_start p input a ≡ ok planned
      → Planned p input planned.0
  by_completion :
      (c : AttemptCompletion) {planned : DeliveryLedgerPlan × DeliveryAttemptRecord}
      → plan_attempt_completion p input c ≡ ok planned
      → Planned p input planned.0
  by_event :
      (e : ProviderEventRecord) {planned : DeliveryLedgerPlan × ProviderEventRecord}
      → plan_provider_event p input e ≡ ok planned
      → Planned p input planned.0
  by_local_state :
      (status : LocalStatus) (updated_at : String) {plan : DeliveryLedgerPlan}
      → plan_local_recipient_state p input status updated_at ≡ ok plan
      → Planned p input plan

-- What a start, a completion, a provider event or a local state plans is a ledger, of whatever
-- input it was made.
pub Planned-IsLedger :
    (p : Platform) (input : DeliveryLedgerState) (plan : DeliveryLedgerPlan)
    → Planned p input plan
    → IsLedger p plan.state
Planned-IsLedger p input _ (Planned.by_start a {planned} h) =
    plan_attempt_start-IsLedger p input a planned h
Planned-IsLedger p input _ (Planned.by_completion c {planned} h) =
    plan_attempt_completion-IsLedger p input c planned h
Planned-IsLedger p input _ (Planned.by_event e {planned} h) =
    plan_provider_event-IsLedger p input e planned h
Planned-IsLedger p input plan (Planned.by_local_state status updated_at h) =
    plan_local_recipient_state-IsLedger p input status updated_at plan h
