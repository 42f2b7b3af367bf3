-- ===== src/Errors/Tests.antt =====
-- lib/writeright-errors.ts on concrete errors.
