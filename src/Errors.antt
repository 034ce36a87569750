-- ===== src/Errors.antt =====
-- pkg/errors: error values, the retry loops and the circuit breaker.
pub mod Value
pub mod Breaker
pub mod Retry
