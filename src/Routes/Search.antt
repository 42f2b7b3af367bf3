-- ===== src/Routes/Search.antt =====
-- GET of app/api/writeright/search/route.ts: the chats whose title or messages contain a text.
pub mod Query
pub mod Merge
pub mod Handler
pub mod Once
mod Tests
