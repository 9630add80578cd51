-- ===== src/Templates.antt =====
-- services/template-service.ts: variables and placeholders, the checks of a version, its rendering,
-- and the operations of the service over the store.
pub mod Placeholders
pub mod Validation
pub mod Render
pub mod Inputs
pub mod Service
pub mod Publication
pub mod Effects
pub mod Refine
