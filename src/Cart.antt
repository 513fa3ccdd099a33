-- ===== src/Cart.antt =====
-- internal/cart: the shopping cart service.
pub mod Model
pub mod Service
pub mod Idempotency
pub mod Checkout
pub mod Server
mod Tests
