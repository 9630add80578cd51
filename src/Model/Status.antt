-- ===== src/Model/Status.antt =====
-- core/delivery-model.ts and core/types.ts: the enumerations of the delivery records, and `===` on them.
mod Enums
mod Messages
mod Recipients
pub use Enums.*
pub use Messages.*
pub use Recipients.*
