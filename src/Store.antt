-- ===== src/Store.antt =====
-- adapters/memory-store.ts: the in-memory store of deliveries, of their ledgers and of the outbox.
pub mod State
pub mod Pages
pub mod Emails
pub mod Deliveries
pub mod Snapshots
pub mod Ledgers
pub mod Outbox
pub mod Metrics
