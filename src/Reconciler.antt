-- ===== src/Reconciler.antt =====
-- services/outbox-reconciler.ts: one sweep, over any outbox store and any queue. The queue is not
-- of this repository's core: what a call of it gives is an argument, and so is the hook that runs
-- after an item is published.
pub mod Handling
pub mod Laws
pub mod Run
use hayasend.Base.{
  ℕ, suc, zero, ◌+◌, String, Bool, true, false, List, [], ◌∷◌, Option, none, some, Result, Error,
  ok, err, ◌>>=◌, hook_error, if◌then◌else◌, length,
}
use hayasend.Model.Status.{DiagnosticCategory}
use hayasend.Model.Records.{OutboxItemRecord}
use hayasend.Platform.{Platform}
use hayasend.Store.State.{MemoryStore, Hook}
use hayasend.Store.Outbox.{
  LeaseDueOutboxInput, lease_due_outbox, acknowledge_outbox, record_outbox_failure,
}

-- What a sweep uses of ports/delivery-outbox-store.ts.
pub record DeliveryOutboxStore (S : Type 0) : Type 0 where
  pub lease_due : LeaseDueOutboxInput → S → Result (List OutboxItemRecord) × S
  pub acknowledge : String → String → ℕ → S → Result Bool × S
  pub record_failure : String → String → DiagnosticCategory → ℕ → S → Result Bool × S

-- The in-memory store is one.
abbrev pub memory_outbox : Platform → Hook → DeliveryOutboxStore MemoryStore
memory_outbox p hook = record {
  lease_due = lease_due_outbox p hook;
  acknowledge = acknowledge_outbox p hook;
  record_failure = record_outbox_failure p hook;
}

-- The `send_email` job of an item.
pub record SendEmailJob : Type 0 where
  pub email_id : String
  pub job_id : String

unfoldable pub job_of : OutboxItemRecord → SendEmailJob
job_of o = record { email_id = o.message_id; job_id = o.id }

-- `enqueue` gives the category of the error that the queue throws; `after_publish` tells whether
-- the hook throws. Both may depend on how many items came before.
pub record Environment : Type 0 where
  pub enqueue : ℕ → SendEmailJob → Option DiagnosticCategory
  pub after_publish : ℕ → OutboxItemRecord → Bool

pub record OutboxSweepResult : Type 0 where
  pub leased : ℕ
  pub dispatched : ℕ
  pub failed : ℕ

-- The variables of the loop, with the jobs that the queue has taken, the last first.
pub record Progress : Type 0 where
  pub dispatched : ℕ
  pub failed : ℕ
  pub queued : List SendEmailJob

unfoldable pub begin : Progress
begin = record { dispatched = 0; failed = 0; queued = [] }

-- What the answer of `acknowledgeOutbox` adds to the progress.
unfoldable pub count_dispatched {ℓ} :
    {S : Type ℓ} → Progress → Result Bool × S → Result Progress × (Progress × S)
count_dispatched g (answer, s) = elim answer [
  | err e ↦ (err e, (g, s))
  | ok done ↦
      let g' : Progress = if done then record g { dispatched = g.dispatched + 1 } else g in
      (ok g', (g', s))
]

-- An error ends the loop with what it has reached.
unfoldable pub and_then {ℓ} :
    {S : Type ℓ}
    → (Progress → S → Result Progress × (Progress × S))
    → Result Progress × (Progress × S)
    → Result Progress × (Progress × S)
and_then next (err e, reached) = (err e, reached)
and_then next (ok g, (_, s)) = next g s

module _ {S : Type 0} (store : DeliveryOutboxStore S) (env : Environment) (owner : String)
    (now : ℕ) where
  -- An item that the queue has taken.
  unfoldable pub published : ℕ → OutboxItemRecord → Progress → S → Result Progress × (Progress × S)
  published n o g s =
      let g' : Progress = record g { queued = job_of o ∷ g.queued } in
      if env.after_publish n o
      then (err hook_error, (g', s))
      else count_dispatched g' (store.acknowledge o.id owner now s)

  unfoldable pub refused :
      OutboxItemRecord → DiagnosticCategory → Progress → S → Result Progress × (Progress × S)
  refused o category g s =
      let g' : Progress = record g { failed = g.failed + 1 } in
      let (answer, s') = store.record_failure o.id owner category now s in
      (answer >>= λ _. ok g', (g', s'))

  unfoldable pub dispatch_item :
      ℕ → OutboxItemRecord → Progress → S → Result Progress × (Progress × S)
  dispatch_item n o g s = elim (env.enqueue n (job_of o)) [
    | some category ↦ refused o category g s
    | none ↦ published n o g s
  ]

  -- The loop over the leased items: an error ends the sweep.
  unfoldable pub dispatch_each :
      ℕ → List OutboxItemRecord → Progress → S → Result Progress × (Progress × S)
  dispatch_each n [] g s = (ok g, (g, s))
  dispatch_each n (o ∷ rest) g s =
      and_then (λ g' s'. dispatch_each (suc n) rest g' s') (dispatch_item n o g s)

  unfoldable pub sweep_result : ℕ → Result Progress → Result OutboxSweepResult
  sweep_result leased (err e) = err e
  sweep_result leased (ok g) =
      ok (record { leased = leased; dispatched = g.dispatched; failed = g.failed })

  -- The loop over what `leaseDueOutbox` has given.
  unfoldable pub sweep_leased :
      Result (List OutboxItemRecord) × S → Result OutboxSweepResult × (List SendEmailJob × S)
  sweep_leased (err e, s) = (err e, ([], s))
  sweep_leased (ok leased, s) =
      let (result, (g, after)) = dispatch_each 0 leased begin s in
      (sweep_result (length leased) result, (g.queued, after))

  -- The result, and the jobs queued with the store that is left, after an error too.
  unfoldable pub sweep : ℕ → ℕ → S → Result OutboxSweepResult × (List SendEmailJob × S)
  sweep lease_seconds batch_size s = sweep_leased (
      store.lease_due
        (record { owner = owner; now = now; lease_seconds = lease_seconds; limit = batch_size }) s)
