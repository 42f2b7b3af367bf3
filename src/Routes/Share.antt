-- ===== src/Routes/Share.antt =====
-- Share links: POST of app/api/writeright/share/route.ts and GET of
-- app/api/writeright/public/share/[token]/route.ts. A token, an encoded part and a URL are lists of
-- UTF-16 code units.
pub mod Token
pub mod Create
pub mod View
pub mod Signed
mod Tests
