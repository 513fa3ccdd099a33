-- ===== src/Httpx.antt =====
-- internal/httpx: the error type that every service shares, and the circuit breaker.
pub mod Errors
pub mod Breaker
pub mod Client
pub mod Middleware
mod Tests
