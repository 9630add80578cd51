-- ===== src/Catalog.antt =====
-- adapters/memory-store.ts: what the in-memory store keeps beside the deliveries: templates, received
-- emails, webhooks and their deliveries, keys, suppressions, domains and uploads.
pub mod Enums
pub mod Records
pub mod State
pub mod Templates
pub mod Items
