-- ===== src/Tests/Outbox.antt =====
-- Leases of the sample outbox, a sweep, and the metrics.
use hayasend.Base.{
  ◌+◌, ◌≤◌, ◌≡◌, ◌≢◌, refl, String, Bool, true, false, List, [], ◌∷◌, none, some, Result, ok, err,
  All, length, arith,
}
use hayasend.Base.Assoc.{get, put}
use hayasend.Base.Assoc.Keyed.{IsKeyed}
use hayasend.Platform.{before, to_iso, iso_of, not_after, max_date, year_10000}
use hayasend.Model.Status.{timeout}
use hayasend.Model.Records.{OutboxItemRecord}
use hayasend.Model.Schemas.{schemas_run}
use hayasend.Store.State.{MemoryStore, Outcome, after_delivery_mutation, and_then}
use hayasend.Store.Outbox.{
  LeaseDueOutboxInput, lease_input_valid, opaque_owner, with_items, unleased, leasable, outbox_le,
  due_items, leased_item, lease_one, lease_each, lease_items, lease_due_outbox, held_by,
  acknowledged, failed_item, released, held_item, if_held, acknowledge_outbox,
  record_outbox_failure,
}
use hayasend.Store.Outbox.Leases.{IsOutbox}
use hayasend.Store.Outbox.Exclusive.{lease_due_outbox_keeps_held, lease_due_outbox-IsOutbox}
use hayasend.Store.Outbox.Grants.{Granted, lease_due_outbox_grants, leases_are_exclusive}
use hayasend.Store.Outbox.Releases.{acknowledgement_is_final, failure_frees_the_item}
use hayasend.Store.Metrics.{get_outbox_metrics}
use hayasend.Text.{is_white, utf16_length}
use hayasend.Store.Metrics.Laws.{
  count_of, is_open, is_due_free, is_due_leased, is_stuck, waits_for_later,
  get_outbox_metrics_counts,
}
use hayasend.Reconciler.{
  memory_outbox, Environment, SendEmailJob, OutboxSweepResult, begin, job_of, count_dispatched,
  and_then as go_on, published, refused, dispatch_item, dispatch_each, sweep_result, sweep_leased,
  sweep,
}
use hayasend.Reconciler.Laws.{SweepReport, sweep_accounts_for_all}
use hayasend.Tests.Samples.{test_platform, test_platform-IsLawful, test_outbox, empty_store, quiet}

unfoldable outbox_run : Unit {0}
unfolding schemas_run get put before to_iso iso_of not_after max_date after_delivery_mutation
    and_then lease_input_valid opaque_owner is_white utf16_length with_items unleased leasable
    outbox_le due_items leased_item lease_one lease_each lease_items lease_due_outbox held_by
    acknowledged failed_item released held_item if_held acknowledge_outbox record_outbox_failure
    begin job_of count_dispatched go_on published refused dispatch_item dispatch_each sweep_result
    sweep_leased sweep
outbox_run = tt

abbrev waiting_store : MemoryStore
waiting_store = record empty_store { outbox_items = (test_outbox.id, test_outbox) ∷ [] }

waiting_store-IsOutbox : IsOutbox waiting_store
unfolding IsKeyed get
waiting_store-IsOutbox = (refl, refl, tt)

abbrev first_call : LeaseDueOutboxInput
first_call = record { owner = "worker-1"; now = 5; lease_seconds = 1; limit = 10 }

abbrev second_call : LeaseDueOutboxInput
second_call = record { owner = "worker-2"; now = 900; lease_seconds = 1; limit = 10 }

abbrev leased_store : Outcome (List OutboxItemRecord)
leased_store = lease_due_outbox test_platform quiet first_call waiting_store

abbrev or_empty {ℓ} : {A : Type ℓ} → Result (List A) → List A
or_empty (ok a) = a
or_empty (err e) = []

leased_run : leased_store.0 ≡ ok (or_empty leased_store.0)
unfolding outbox_run
leased_run = refl

one_leased_run : length (or_empty leased_store.0) ≡ 1
unfolding outbox_run
one_leased_run = refl

second_run : (lease_due_outbox test_platform quiet second_call leased_store.1).0 ≡ ok []
unfolding outbox_run
second_run = refl

leases_are_exclusive_example :
    All (λ u. All (λ (v : OutboxItemRecord). v.id ≢ u.id) []) (or_empty leased_store.0)
unfolding year_10000
leases_are_exclusive_example =
    leases_are_exclusive test_platform quiet quiet first_call second_call waiting_store
      test_platform-IsLawful waiting_store-IsOutbox (omega arith) (omega arith) leased_run
      second_run

leased_store-IsOutbox : IsOutbox leased_store.1
leased_store-IsOutbox =
    lease_due_outbox-IsOutbox test_platform quiet first_call waiting_store waiting_store-IsOutbox

abbrev leased_outbox : OutboxItemRecord
leased_outbox =
    leased_item test_platform "worker-1" (test_platform.iso_string 1005) "IIIII" test_outbox

lease_due_outbox_grants_example :
    (expires_at : String) × (iso_of test_platform 1005 ≡ ok expires_at)
    × (length (or_empty leased_store.0) ≤ 10)
    × All
        (Granted test_platform first_call waiting_store leased_store.1 expires_at)
        (or_empty leased_store.0)
lease_due_outbox_grants_example =
    lease_due_outbox_grants test_platform quiet first_call waiting_store waiting_store-IsOutbox
      leased_run

lease_due_outbox_keeps_held_example :
    get test_outbox.id
      (lease_due_outbox test_platform quiet second_call leased_store.1).1.outbox_items
    ≡ some leased_outbox
unfolding outbox_run
lease_due_outbox_keeps_held_example =
    lease_due_outbox_keeps_held test_platform quiet second_call leased_store.1 test_outbox.id
      leased_outbox leased_store-IsOutbox refl refl

abbrev acknowledged_store : Outcome Bool
acknowledged_store =
    acknowledge_outbox test_platform quiet test_outbox.id "worker-1" 6 leased_store.1

acknowledged_run : acknowledged_store.0 ≡ ok true
unfolding outbox_run
acknowledged_run = refl

acknowledgement_is_final_example :
    (was item : OutboxItemRecord) × (get test_outbox.id leased_store.1.outbox_items ≡ some was)
    × (was.lease_owner ≡ some "worker-1")
    × (get test_outbox.id
          (lease_due_outbox test_platform quiet second_call acknowledged_store.1).1.outbox_items
        ≡ some item)
    × (now_iso : String) × (iso_of test_platform 6 ≡ ok now_iso)
    × (item.dispatched_at ≡ some now_iso)
    × (item.lease_owner ≡ none)
acknowledgement_is_final_example =
    acknowledgement_is_final test_platform quiet quiet test_outbox.id "worker-1" 6 leased_store.1
      second_call leased_store-IsOutbox acknowledged_run

abbrev failed_store : Outcome Bool
failed_store =
    record_outbox_failure test_platform quiet test_outbox.id "worker-1" timeout 6 leased_store.1

failed_run : failed_store.0 ≡ ok true
unfolding outbox_run
failed_run = refl

failure_frees_the_item_example :
    (was item : OutboxItemRecord) × (get test_outbox.id leased_store.1.outbox_items ≡ some was)
    × (was.lease_owner ≡ some "worker-1")
    × (get test_outbox.id failed_store.1.outbox_items ≡ some item)
    × (item.last_diagnostic_category ≡ some timeout)
    × (leasable test_platform 7 item ≡ not_after test_platform was.due_at 7)
failure_frees_the_item_example =
    failure_frees_the_item test_platform quiet test_outbox.id "worker-1" timeout 6 7 leased_store.1
      leased_store-IsOutbox failed_run

get_outbox_metrics_counts_example :
    let m = get_outbox_metrics test_platform 7 leased_store.1 in
    (m.due ≡ count_of test_platform 7 (is_due_free test_platform 7) leased_store.1)
    × (m.leased ≡ count_of test_platform 7 (is_due_leased test_platform 7) leased_store.1)
    × (m.stuck_leases ≡ count_of test_platform 7 (is_stuck test_platform 7) leased_store.1)
    × (m.undispatched ≡ count_of test_platform 7 (is_open test_platform 7) leased_store.1)
    × (m.due + m.leased + count_of test_platform 7 (waits_for_later test_platform 7) leased_store.1
        ≡ m.undispatched)
    × (m.stuck_leases ≤ m.due)
get_outbox_metrics_counts_example = get_outbox_metrics_counts test_platform 7 leased_store.1

-- A queue that takes every job.
abbrev steady : Environment
steady = record { enqueue = λ _ _. none; after_publish = λ _ _. false }

abbrev swept : Result OutboxSweepResult × (List SendEmailJob × MemoryStore)
swept = sweep (memory_outbox test_platform quiet) steady "worker-1" 5 60 100 waiting_store

sweep_run : swept.0 ≡ ok (record { leased = 1; dispatched = 1; failed = 0 })
unfolding outbox_run
sweep_run = refl

sweep_accounts_for_all_example :
    SweepReport
      (memory_outbox test_platform quiet)
      steady
      "worker-1"
      5
      (lease_due_outbox test_platform quiet
        (record { owner = "worker-1"; now = 5; lease_seconds = 60; limit = 100 })
        waiting_store)
      (record { leased = 1; dispatched = 1; failed = 0 })
      swept
sweep_accounts_for_all_example =
    sweep_accounts_for_all (memory_outbox test_platform quiet) steady "worker-1" 5 60 100
      waiting_store sweep_run
