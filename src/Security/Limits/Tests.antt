-- ===== src/Security/Limits/Tests.antt =====
-- The limiter and the resource manager at concrete values.
