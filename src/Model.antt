-- ===== src/Model.antt =====
-- core/delivery-model.ts: the provider-neutral delivery records and their schemas.
pub mod Status
pub mod Formats
pub mod Identity
pub mod Records
pub mod Schemas
