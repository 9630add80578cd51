-- ===== src/Webhooks.antt =====
-- services/webhook-service.ts: webhook endpoints, the fan-out of events to them, and the delivery of
-- one event over HTTP.
pub mod State
pub mod Endpoints
pub mod Deliveries
pub mod Publish
