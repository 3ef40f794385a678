-- ===== src/Stream.antt =====
-- The path of a live measurement from a Kafka message to the PostgreSQL ledger.
pub mod Event
pub mod Decision
pub mod Wire
pub mod Adapters
pub mod Runner
pub mod Loop
mod Tests
