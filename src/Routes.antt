-- ===== src/Routes.antt =====
-- The route handlers under app/api, as far as they work on Redis.
pub mod Completion
pub mod Session
pub mod Message
pub mod Quota
pub mod Stats
pub mod Analytics
pub mod Stream
pub mod Share
pub mod Search
pub mod Poll
mod Tests
