-- ===== src/Routes/Stream.antt =====
-- GET of app/api/writeright/job/[jobId]/stream/route.ts: the events of a job as they are sent to a
-- client, from a loop that polls Redis and the database, and from the job's channel.
pub mod Events
pub mod Look
pub mod Run
pub mod Settles
pub mod Over
pub mod Ends
mod Tests
