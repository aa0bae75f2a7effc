-- ===== src/TypeText/Tests.antt =====
-- Runs on type texts and on the details of symbols.
