-- ===== src/Jobs.antt =====
-- src/db.rs, "Durable jobs": the queue of background work. The children hold the operations:
-- `Enqueue` puts jobs in, `Work` claims, advances and ends them, `Recover` repairs the queue at
-- startup; then what they promise.
pub mod Cleanup
pub mod Enqueue
pub mod Work
pub mod Recover
pub mod Ids
pub mod Outcome
pub mod Order
pub mod Valid
pub mod Queue
pub mod Once
pub mod Ending
mod Tests
