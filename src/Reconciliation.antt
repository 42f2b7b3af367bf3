-- ===== src/Reconciliation.antt =====
-- lib/reconciliation-worker.ts: the queue that retries failed operations on the auth gateway.
pub mod Keys
pub mod Window
pub mod Version
pub mod Gateway
pub mod Operation
pub mod Enqueue
pub mod Worker
pub mod OwnState
pub mod Stale
pub mod Fate
pub mod Loop
pub mod Lifecycle
pub mod Once
pub mod Queued
pub mod Lost
mod Tests
