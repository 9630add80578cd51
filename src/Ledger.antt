-- ===== src/Ledger.antt =====
-- core/recipient-ledger.ts: the ledger of one message, its recipients and its submission attempts.
pub mod Status
pub mod State
pub mod Plans
pub mod Attempts
pub mod Events
pub mod Order
pub mod Invariant
pub mod Life
pub mod Sound
