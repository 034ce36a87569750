-- ===== src/Security.antt =====
-- pkg/security/conversion.go and pkg/security/helpers.go: conversions between machine integers
-- that refuse what does not fit, the rate limiter and the resource manager.
-- A signed integer is a ℤ; `time.Time` and `time.Duration` are numbers of nanoseconds.
pub mod Int
pub mod Convert
pub mod Limits
