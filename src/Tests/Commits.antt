-- ===== src/Tests/Commits.antt =====
-- A commit, a retry of it, and a provider event that arrives twice, on the sample records.
use hayasend.Base.{◌≡◌, refl, true, false, [], ◌∷◌, none, some, ok, ◌⊎◌, leb, map}
use hayasend.Base.Assoc.{get, put}
use hayasend.Model.Records.{ProviderEventRecord}
use hayasend.Commit.{
  dispatchable, email_matches, claim_matches, recipients_match, recipients_distinct, outbox_matches,
  validate_delivery_commit,
}
use hayasend.Store.State.{MemoryStore, Hook, after_delivery_mutation, and_then, if_found}
use hayasend.Store.Deliveries.{
  DeliveryCommitResult, all_present, outbox_of, claim_of_entry, delivery_result, live_claim,
  replay_commit, stage_recipients, stage_claim, entry_of, identity_taken, stage_commit, swap_commit,
  commit_new, commit_claimed, commit_valid, commit_delivery,
}
use hayasend.Store.Deliveries.Stored.{IsStored}
use hayasend.Store.Deliveries.Commits.{
  read_back, commit_is_all_or_nothing, retry_replays_the_commit,
}
use hayasend.Store.Snapshots.{
  DeliveryLedgerMutationResult, attempt_le, event_le, same_event,
  is_equivalent_provider_event_replay, delivery_ledger, delivery_ledger_result,
  stage_ledger_recipients, stage_attempt, stage_event, commit_ledger_plan,
}
use hayasend.Store.Ledgers.{
  commit_and_read, replay_attempt, begin_attempt, begin_delivery_attempt, same_completion,
  replay_completion, complete_attempt, complete_delivery_attempt, replay_event, append_event,
  append_provider_event, apply_local_delivery_state,
}
use hayasend.Store.Ledgers.Whole.{
  Unless, Begun, Completed, Appended, Applied, ledger_operations_are_atomic,
}
use hayasend.Store.Ledgers.Events.{provider_event_is_applied_once}
use hayasend.Ledger.Events.{canceled}
use hayasend.Model.Schemas.{event_valid, schemas_run}
use hayasend.Tests.Ledgers.{completed, received, ledger_run, test_completion}
use hayasend.Tests.Samples.{
  test_platform, test_id, test_commit, test_claim, test_attempt, test_event, empty_store, quiet,
}

unfoldable pub store_run : Unit {0}
unfolding ledger_run get put dispatchable email_matches claim_matches recipients_match
    recipients_distinct outbox_matches validate_delivery_commit after_delivery_mutation and_then
    if_found all_present outbox_of claim_of_entry delivery_result live_claim replay_commit
    stage_recipients stage_claim entry_of identity_taken stage_commit swap_commit commit_new
    commit_claimed commit_valid commit_delivery attempt_le event_le same_event
    is_equivalent_provider_event_replay delivery_ledger delivery_ledger_result
    stage_ledger_recipients stage_attempt stage_event commit_ledger_plan commit_and_read
    replay_attempt begin_attempt begin_delivery_attempt same_completion replay_completion
    complete_attempt complete_delivery_attempt replay_event append_event append_provider_event
    apply_local_delivery_state
store_run = tt

abbrev commit_answer : DeliveryCommitResult
commit_answer = record { delivery = test_commit; replayed = false }

committed_run : (commit_delivery test_platform quiet test_commit 5 empty_store).0 ≡ ok commit_answer
unfolding store_run
committed_run = refl

-- A hook that throws from its fourth call on, between the recipients.
abbrev broken : Hook
broken = λ n _. leb 3 n

broken_commit_run : (commit_delivery test_platform broken test_commit 5 empty_store).1 ≡ empty_store
unfolding store_run
broken_commit_run = refl

commit_is_all_or_nothing_example :
    let after = commit_delivery test_platform broken test_commit 5 empty_store in
    (after.1 ≡ empty_store)
    ⊎ (IsStored test_commit after.1
        × (delivery_result test_id false after.1 ≡ some (read_back test_commit false after.1)))
commit_is_all_or_nothing_example =
    commit_is_all_or_nothing test_platform broken test_commit 5 empty_store

retry_replays_the_commit_example :
    let after = (commit_delivery test_platform quiet test_commit 5 empty_store).1 in
    commit_delivery test_platform quiet test_commit 7 after
    ≡ (ok (read_back test_commit true after), after)
retry_replays_the_commit_example =
    retry_replays_the_commit test_platform quiet quiet test_commit test_claim 5 7 empty_store refl
      refl committed_run refl

-- The store after the first attempt has been accepted.
abbrev accepted_store : MemoryStore
accepted_store = record empty_store {
  emails = (test_id, completed.0.state.email) ∷ [];
  delivery_messages = (test_id, completed.0.state.message) ∷ [];
  delivery_recipients = map (λ r. (r.id, r)) completed.0.state.recipients;
  delivery_attempts = (completed.1.id, completed.1) ∷ [];
}

abbrev recorded : DeliveryLedgerMutationResult
recorded = record {
  snapshot = record { state = received.0.state; events = test_event ∷ [] };
  replayed = false;
  changed_recipient_ids = received.0.changed_recipient_ids;
  attempt = none;
  event = some test_event;
}

recorded_run :
    (append_provider_event test_platform quiet test_event accepted_store).0 ≡ ok (some recorded)
unfolding store_run
recorded_run = refl

-- The same event, received later.
abbrev again : ProviderEventRecord
again = record test_event { received_at = "IIIIIII" }

again_valid : event_valid test_platform again ≡ true
unfolding schemas_run
again_valid = refl

again_same : same_event test_event again ≡ true
unfolding same_event
again_same = refl

provider_event_is_applied_once_example :
    let after = (append_provider_event test_platform quiet test_event accepted_store).1 in
    append_provider_event test_platform quiet again after ≡ (
      ok (delivery_ledger_result test_platform test_id true [] none (some test_event) after),
      after,
    )
provider_event_is_applied_once_example =
    provider_event_is_applied_once test_platform quiet quiet test_event again accepted_store
      recorded_run refl again_valid again_same

ledger_operations_are_atomic_example :
    Unless test_platform quiet accepted_store
      (Begun test_platform quiet accepted_store test_attempt)
      (begin_delivery_attempt test_platform quiet test_attempt accepted_store).1
    × Unless test_platform quiet accepted_store
        (Completed test_platform quiet accepted_store test_completion)
        (complete_delivery_attempt test_platform quiet test_completion accepted_store).1
    × Unless test_platform quiet accepted_store
        (Appended test_platform quiet accepted_store test_event)
        (append_provider_event test_platform quiet test_event accepted_store).1
    × Unless test_platform quiet accepted_store
        (Applied test_platform quiet accepted_store test_id canceled "IIII")
        (apply_local_delivery_state test_platform quiet test_id canceled "IIII" accepted_store).1
ledger_operations_are_atomic_example =
    ledger_operations_are_atomic test_platform quiet accepted_store test_attempt test_completion
      test_event test_id "IIII" canceled
