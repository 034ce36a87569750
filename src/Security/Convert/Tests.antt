-- ===== src/Security/Convert/Tests.antt =====
-- The conversion theorems at concrete values.
