-- ===== src/Ledger/Life.antt =====
-- The life of a ledger: the plans of core/recipient-ledger.ts in any order, between which other
-- writers may change the email and the message, but not the message's recipients.
pub mod Submissions
pub mod Exclusive
pub mod Steps
pub mod Once
use hayasend.Base.{◌≡◌, String, List, [], ok}
use hayasend.Platform.{Platform}
use hayasend.Model.Records.{
  EmailRecord, DeliveryMessageRecord, DeliveryAttemptRecord, ProviderEventRecord,
}
use hayasend.Ledger.State.{DeliveryLedgerState, DeliveryLedgerPlan}
use hayasend.Ledger.Attempts.{AttemptCompletion, plan_attempt_start, plan_attempt_completion}
use hayasend.Ledger.Events.{LocalStatus, plan_provider_event, plan_local_recipient_state}

pub data Step (p : Platform) (st : DeliveryLedgerState) : DeliveryLedgerState → Type 0 where
  starts :
      (a : DeliveryAttemptRecord) {plan : DeliveryLedgerPlan} {a' : DeliveryAttemptRecord}
      → plan_attempt_start p st a ≡ ok (plan, a')
      → Step p st plan.state
  completes :
      (c : AttemptCompletion) {plan : DeliveryLedgerPlan} {a' : DeliveryAttemptRecord}
      → plan_attempt_completion p st c ≡ ok (plan, a')
      → Step p st plan.state
  receives :
      (e : ProviderEventRecord) {plan : DeliveryLedgerPlan} {e' : ProviderEventRecord}
      → plan_provider_event p st e ≡ ok (plan, e')
      → Step p st plan.state
  sets :
      (s : LocalStatus) (updated_at : String) {plan : DeliveryLedgerPlan}
      → plan_local_recipient_state p st s updated_at ≡ ok plan
      → Step p st plan.state
  edits :
      (email : EmailRecord) (message : DeliveryMessageRecord)
      → message.recipient_ids ≡ st.message.recipient_ids
      → Step p st (record st { email = email; message = message })

-- From a ledger without attempts.
pub data Reach (p : Platform) : DeliveryLedgerState → Type 0 where
  begins : (st : DeliveryLedgerState) → st.attempts ≡ [] → Reach p st
  next : {st st' : DeliveryLedgerState} → Reach p st → Step p st st' → Reach p st'
