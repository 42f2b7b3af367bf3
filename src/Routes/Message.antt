-- ===== src/Routes/Message.antt =====
-- POST of app/api/writeright/message/route.ts: a message is validated, admitted, saved and queued.
pub mod Input
pub mod Admit
pub mod Parts
pub mod Post
mod Tests
