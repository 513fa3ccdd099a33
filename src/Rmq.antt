-- ===== src/Rmq.antt =====
-- internal/rmq: the consumers and the publishers of a RabbitMQ broker, which is not part of the
-- repository. Of internal/rmq/config.go, the settings that the two read.
pub mod Consumer
pub mod Publisher
pub mod Connection
mod Tests
use quorum_market.Common.{ℕ, ℤ, pos, pos_part, ltb_ℤ, if◌then◌else◌, Str}

pub record Config : Type 0 where
  pub queue : Str
  pub workers : ℤ
  pub prefetch : ℤ
  pub pool_size : ℤ

-- `if n < 1 { n = 1 }`
unfoldable pub at_least_one : ℤ → ℕ
at_least_one n = if ltb_ℤ n (pos 1) then 1 else pos_part n
