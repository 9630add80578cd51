-- ===== src/Tests.antt =====
-- Runs of the model on concrete records.
pub mod Samples
mod Statuses
mod Ledgers
mod Commits
mod Outbox
pub mod Catalog
pub mod Webhooks
mod ApiKeys
mod Jobs
mod Templates
