-- ===== src/Core.antt =====
-- core/domain: the statuses and the records that the services and the adapters exchange.
pub mod Status
pub mod Transitions
pub mod Model
mod Tests
