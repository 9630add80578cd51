-- ===== src/Store/Deliveries.antt =====
-- adapters/memory-store.ts: `commitDelivery` and `deliveryResult`.
pub mod Stored
pub mod Commits
use hayasend.Base.{
  ℕ, suc, zero, ◌+◌, String, Bool, true, false, not, ◌&&◌, ◌||◌, List, [], ◌∷◌, Option, none, some,
  Result, Error, ok, err, ◌>>=◌, ◌>>◌, refuse_if, require, key_reused, records_unavailable,
  identity_in_use, recipient_in_use, leb, if◌then◌else◌, ◌==◌, string_eq, find, length,
}
use hayasend.Base.Assoc.{Assoc, get, has, put, values}
use hayasend.Platform.{Platform}
use hayasend.Model.Records.{EmailRecord, DeliveryMessageRecord, RecipientRecord, OutboxItemRecord}
use hayasend.Commit.{IdempotencyClaim, DeliveryCommit, validate_delivery_commit}
use hayasend.Store.State.{
  IdempotencyEntry, MemoryStore, CommitEntity, commit, commit_swap, Hook, after_delivery_mutation,
  Outcome, and_then,
}

-- DeliveryCommitResult: a commit, and whether it was there before.
pub record DeliveryCommitResult : Type 0 where
  pub delivery : DeliveryCommit
  pub replayed : Bool

-- `ids.map(id => records.get(id))`, undefined when one of them is.
unfoldable pub all_present {ℓ} : {V : Type ℓ} → List String → Assoc V → Option (List V)
all_present [] m = some []
all_present (id ∷ more) m = elim (get id m) [
  | none ↦ none
  | some v ↦ elim (all_present more m) [ none ↦ none | some vs ↦ some (v ∷ vs) ]
]

-- `outboxId ? outboxItems.get(outboxId) : undefined`
unfoldable pub outbox_of : String → MemoryStore → Option OutboxItemRecord
outbox_of message_id s = elim (get message_id s.outbox_by_message) [
  | none ↦ none
  | some id ↦ if id == "" then none else get id s.outbox_items
]

unfoldable pub claim_of_entry : Option IdempotencyEntry → Option IdempotencyClaim
claim_of_entry none = none
claim_of_entry (some e) =
    some
      (record { key_hash = e.key_hash; request_hash = e.request_hash; expires_at = e.expires_at })

unfoldable pub delivery_result : String → Bool → MemoryStore → Option DeliveryCommitResult
unfolding outbox_of claim_of_entry
delivery_result message_id replayed s = elim (get message_id s.emails) [
  | none ↦ none
  | some email ↦ elim (get message_id s.delivery_messages) [
    | none ↦ none
    | some message ↦ elim (outbox_of message_id s) [
      | none ↦ none
      | some outbox ↦ elim (all_present message.recipient_ids s.delivery_recipients) [
        | none ↦ none
        | some recipients ↦ some (record {
          delivery = record {
            email = email;
            message = message;
            recipients = recipients;
            outbox = outbox;
            idempotency =
                claim_of_entry (find (λ e. e.email_id == message_id) (values s.idempotency));
          };
          replayed = replayed;
        })
      ]
    ]
  ]
]

-- The claim of the same key that has not expired.
unfoldable pub live_claim :
    Option IdempotencyClaim
    → ℕ
    → Assoc IdempotencyEntry
    → Option (IdempotencyClaim × IdempotencyEntry)
live_claim none now m = none
live_claim (some c) now m = elim (get c.key_hash m) [
  | none ↦ none
  | some e ↦ if leb e.expires_at now then none else some (c, e)
]

-- What the commit of a live claim's key gives: the delivery of the first commit, or a conflict.
unfoldable pub replay_commit :
    IdempotencyClaim → IdempotencyEntry → MemoryStore → Result DeliveryCommitResult
replay_commit c e s = do
  refuse_if (not (e.request_hash == c.request_hash)) key_reused
  require (delivery_result e.email_id true s) records_unavailable

-- The loop over the recipients, from the given index; the hook has been called twice before it.
unfoldable pub stage_recipients :
    Hook → ℕ → List RecipientRecord → Assoc RecipientRecord → Result (Assoc RecipientRecord)
stage_recipients hook n [] m = ok m
stage_recipients hook n (r ∷ rs) m = do
  refuse_if (has r.id m) recipient_in_use
  after_delivery_mutation hook (n + 2) (commit (CommitEntity.recipient n))
  stage_recipients hook (suc n) rs (put r.id r m)

-- { ...idempotency, email_id }
unfoldable pub entry_of : IdempotencyClaim → String → IdempotencyEntry
entry_of c email_id = record {
  key_hash = c.key_hash;
  request_hash = c.request_hash;
  expires_at = c.expires_at;
  email_id = email_id;
}

-- The staged idempotency map, and the calls of the hook so far.
unfoldable pub stage_claim :
    Hook
    → ℕ
    → String
    → Option IdempotencyClaim
    → Assoc IdempotencyEntry
    → Result (Assoc IdempotencyEntry × ℕ)
stage_claim hook n email_id none m = ok (m, n)
stage_claim hook n email_id (some c) m = do
  after_delivery_mutation hook n (commit CommitEntity.idempotency)
  ok (put c.key_hash (entry_of c email_id) m, n + 1)

unfoldable pub identity_taken : DeliveryCommit → MemoryStore → Bool
identity_taken v s =
    has v.email.id s.emails
    || has v.message.id s.delivery_messages
    || has v.outbox.id s.outbox_items

-- The writes to copies of the maps, up to the swap; with the number of calls of the hook.
unfoldable pub stage_commit : Hook → DeliveryCommit → MemoryStore → Result (MemoryStore × ℕ)
stage_commit hook v s = do
  after_delivery_mutation hook 0 (commit CommitEntity.email)
  after_delivery_mutation hook 1 (commit CommitEntity.message)
  recipients ← stage_recipients hook 0 v.recipients s.delivery_recipients
  claims ← stage_claim hook (length v.recipients + 2) v.email.id v.idempotency s.idempotency
  after_delivery_mutation hook claims.1 (commit CommitEntity.outbox)
  ok (
    record s {
      emails = put v.email.id v.email s.emails;
      idempotency = claims.0;
      delivery_messages = put v.message.id v.message s.delivery_messages;
      delivery_recipients = recipients;
      outbox_items = put v.outbox.id v.outbox s.outbox_items;
      outbox_by_message = put v.message.id v.outbox.id s.outbox_by_message;
    },
    claims.1 + 1,
  )

-- The swap, and the last call of the hook, which can throw after it.
unfoldable pub swap_commit : Hook → DeliveryCommit → MemoryStore → Outcome DeliveryCommitResult
swap_commit hook v s =
    and_then (stage_commit hook v s, s)
      (λ staged s. (
        after_delivery_mutation hook staged.1 commit_swap
            >> ok (record { delivery = v; replayed = false }),
        staged.0,
      ))

unfoldable pub commit_new : Hook → DeliveryCommit → MemoryStore → Outcome DeliveryCommitResult
commit_new hook v s =
    and_then (refuse_if (identity_taken v s) identity_in_use, s) (λ _ s. swap_commit hook v s)

unfoldable pub commit_claimed :
    Hook
    → DeliveryCommit
    → Option (IdempotencyClaim × IdempotencyEntry)
    → MemoryStore
    → Outcome DeliveryCommitResult
commit_claimed hook v none s = commit_new hook v s
commit_claimed hook v (some (c, e)) s = (replay_commit c e s, s)

unfoldable pub commit_valid : Hook → ℕ → DeliveryCommit → MemoryStore → Outcome DeliveryCommitResult
commit_valid hook now v s = commit_claimed hook v (live_claim v.idempotency now s.idempotency) s

unfoldable pub commit_delivery :
    Platform → Hook → DeliveryCommit → ℕ → MemoryStore → Outcome DeliveryCommitResult
commit_delivery p hook input now s =
    and_then (validate_delivery_commit p input now, s) (λ v s. commit_valid hook now v s)
