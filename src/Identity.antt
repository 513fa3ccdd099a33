-- ===== src/Identity.antt =====
-- internal/identity/identity.go: accounts and sessions.
pub mod Stores
pub mod Credentials
pub mod Service
pub mod Toy
mod Tests
