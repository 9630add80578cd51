-- ===== src/Lib.antt =====
-- Verification of HayaSend's core: the records of a delivery, the ledger that decides when a
-- message may be submitted and what its recipients' statuses become, the in-memory store, the
-- sweep that turns outbox items into jobs, the envelope of a job, schedules, templates with their
-- rendering, webhooks with their deliveries, API keys and suppressions.
--
-- The parts and how they interact. A send is a commit (src/core/delivery-commit.ts) of an email, a
-- message, its recipients and an outbox item, which the store
-- (src/adapters/memory-store.ts) makes visible together. A sweep
-- (src/services/outbox-reconciler.ts) leases due items, queues a job for each and acknowledges it.
-- A job opens a submission attempt and completes it, and provider events arrive later: the store
-- reads the ledger, plans the change (src/core/recipient-ledger.ts) and writes the plan back. All
-- records pass the schemas of src/core/delivery-model.ts. A job crosses the queue in an envelope
-- (src/core/job-envelope.ts), at the time that a schedule names (src/core/schedule.ts). The
-- content of a send may come from a template (src/services/template-service.ts), which keeps its
-- draft and its published versions in the store. What happens to an email is told to the
-- subscribed endpoints (src/services/webhook-service.ts): publication queues a delivery for each,
-- and a job makes the attempts.
--
-- Files:
--   Base/*: Boolean tests, `===` as an instance, lists, results, `Map` as an association list.
--   Platform: `Date`, `localeCompare` and zod's datetime and email formats as arguments, with the
--     law that reading a written time gives it back, up to the year 9999.
--   Model/*: src/core/delivery-model.ts and the email record of src/core/types.ts. Schemas are
--     tests, and `parse` gives back its argument or an error.
--   Commit: validateDeliveryCommit as validate_delivery_commit, one definition per guard.
--   Ledger/Status: transitionRecipientStatus, deriveDeliveryMessageStatus and
--     derivePublicEmailStatus. Ledger/State: assertLedgerState and the shared updates.
--     Ledger/Plans, Attempts, Events: planAttemptStart, planAttemptCompletion, planProviderEvent
--     and planLocalRecipientState; what they do after their guards is finish_plan.
--   Ledger/Order: the recipients in the message's order. Ledger/Invariant: the specification of a
--     ledger. Ledger/Life: the plans in any order as a step relation, and reachability.
--   Store/State: the maps of MemoryStore as a record; an operation gives a result or an error,
--     with the store that it leaves. The hook afterDeliveryMutation is a Boolean of the number of
--     its earlier calls in the operation and of the mutation: whether it throws.
--   Store/Emails: createEmail, claimEmailForSend, updateEmail, rescheduleEmailAndOutbox,
--     getEmail and listEmails.
--   Store/Deliveries: commitDelivery and deliveryResult. Store/Snapshots and Store/Ledgers:
--     deliveryLedger, commitLedgerPlan and the four operations on a ledger. Store/Ledgers/Writes:
--     what commitLedgerPlan writes, map by map.
--   Store/Pages: pageFromMap, and its laws on cursors.
--   Store/Outbox: leaseDueOutbox, acknowledgeOutbox, recordOutboxFailure. Store/Metrics:
--     getOutboxMetrics.
--   Reconciler: OutboxReconciler.sweep, over any outbox store and any queue. Reconciler/Run: its
--     constructor, and run, of which the fuel is a number of sweeps. Reconciler/Handling and Laws:
--     what a sweep does with the items.
--   Text, Json: the operations of JavaScript's strings and its JSON values that the code uses.
--   Catalog/*: the rest of src/adapters/memory-store.ts. Enums and Records: the records of
--     src/core/types.ts. State: the maps. Items: received emails, domains, webhooks and their
--     deliveries, keys, suppressions, uploads. Templates: the operations on templates, with the
--     indexes of aliases; Templates/Lists: listTemplates and listTemplateVersions;
--     Templates/Index, Laws, Retained and History: the proofs, of which those on the history of
--     versions take as an argument that localeCompare orders texts.
--   Secrets: secretsEqual of src/core/crypto.ts, on bytes; ApiKeys: ApiKeyService. ApiKeys/Laws,
--     Creation and Revocation: what a token opens, and that a revoked key opens nothing any more.
--   Suppressions: SuppressionService and normalizeMailbox.
--   Jobs: createJobEnvelope, parseJobEnvelope and jobIdentity. Schedule: parseScheduledAt,
--     secondsUntil, delaySecondsUntil.
--   Templates/Placeholders, Validation, Render: the placeholders of a text, the checks of a
--     version and its rendering. Templates/Inputs, Service and Publication: the methods of
--     TemplateService. Templates/Effects: how each method ends, and
--     what it leaves of the template that it has read. Templates/Refine: the service against the
--     store.
--   Webhooks/State, Endpoints, Deliveries, Publish: WebhookService, and
--     assertWebhookEndpointShape of src/core/network-safety.ts.
--   Tests/*: runs on concrete records.
--
-- Conventions. Numbers are natural numbers; times are milliseconds since 1970, and earlier times
-- are not modelled. A check that a number is a non-negative integer holds by its type. A clone is
-- the value itself. Each method of the store runs without awaiting, so that calls follow each
-- other. `encodeURIComponent` and `toLowerCase` are modelled on ASCII, which the schemas enforce
-- where they are used. All loops are structural recursion; the decimal printing of a number n has
-- n + 1 steps as its fuel, more than its digits. The loop over the pages of the endpoints has one
-- step more than there are endpoints, and each page before the last takes a hundred of them. A
-- service's world is the store with what the service changes outside it: the queued jobs, the
-- requests made, and the numbers of clock readings and of identifiers taken, which the clock and
-- the source of identifiers are functions of. Promise.all is its calls one after another, all of
-- them, with the first error. Arguments of the definitions stand for html-to-text, URL parsing,
-- the HTTP client, the check of an address, the signature, hashes, the bytes of a text in
-- UTF-8, random identifiers, JSON.parse and JSON.stringify, and whether the queue takes a job.
-- The further fields that `publish` is given name none of its own. A string is a list of Unicode
-- scalar values; its length in JavaScript counts those past 65535 twice.
--
-- Not modelled: the other stores and adapters, the services for sending, receiving, attachments and
-- domains, metrics and telemetry, the HTTP interface, the console and the command line tools.
pub mod Base
pub mod Platform
pub mod Model
pub mod Ledger
pub mod Commit
pub mod Store
pub mod Text
pub mod Json
pub mod Secrets
pub mod Catalog
pub mod ApiKeys
pub mod Suppressions
pub mod Jobs
pub mod Schedule
pub mod Webhooks
pub mod Templates
pub mod Reconciler
pub mod Tests
