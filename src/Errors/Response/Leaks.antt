-- ===== src/Errors/Response/Leaks.antt =====
-- What a client learns of an error.
