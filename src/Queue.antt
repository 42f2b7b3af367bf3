-- ===== src/Queue.antt =====
-- lib/writeright-queue.ts: the queue of the writing jobs, their status and results, the response
-- cache, the rate limit and the idempotent responses.
pub mod Keys
pub mod Jobs
pub mod Responses
pub mod RateLimit
mod Tests
