-- ===== src/Rmq/Consumer.antt =====
-- internal/rmq/consumer.go: how a delivery is settled, and how a worker waits for its subscription.
-- The handler is a parameter. The answers to Ack and Nack are only logged.
pub mod Waits
pub mod Deliveries
pub mod Chances
pub mod Settled
use quorum_market.Common.{
  ℕ, zero, suc, ◌+◌, ◌*◌, ◌%◌, ◌^◌, Bool, true, false, ℤ, pos, pos_part, ltb_ℤ, ltb, if◌then◌else◌,
  Str,
}
use quorum_market.Rmq.{Config, at_least_one}

-- What a handler returns: nil, an error that wraps ErrDrop, or any other error.
pub data Verdict : Type 0 where
  handled : Verdict
  unprocessable : Verdict
  failing : Verdict

-- The parts of `amqp.Delivery` that the consumer reads, and which of the broker's messages it is, which
-- the consumer does not read.
pub record Delivery : Type 0 where
  pub number : ℕ
  pub body : Str
  pub is_redelivered : Bool

-- `Ack(false)`, `Nack(false, false)` and `Nack(false, true)`
pub data Settlement : Type 0 where
  acked : Settlement
  dead_lettered : Settlement
  requeued : Settlement

-- The counters are uint64.
pub record Consumer : Type 0 where
  pub queue : Str
  pub workers : ℕ
  pub prefetch : ℕ
  pub processed : ℕ
  pub dead_letters : ℕ
  pub requeues : ℕ

unfoldable pub new_consumer : Config → Consumer
unfolding at_least_one
new_consumer cfg = record {
  queue = cfg.queue;
  workers = at_least_one cfg.workers;
  prefetch = at_least_one cfg.prefetch;
  processed = 0;
  dead_letters = 0;
  requeues = 0;
}

unfoldable pub dead_letter : Consumer → Settlement × Consumer
dead_letter c = (dead_lettered, record c { dead_letters = (c.dead_letters + 1) % 2 ^ 64 })

unfoldable pub handle : Verdict → Bool → Consumer → Settlement × Consumer
unfolding dead_letter
handle handled again c = (acked, record c { processed = (c.processed + 1) % 2 ^ 64 })
handle unprocessable again c = dead_letter c
handle failing true c = dead_letter c
handle failing false c = (requeued, record c { requeues = (c.requeues + 1) % 2 ^ 64 })

-- Nanoseconds.
abbrev pub max_backoff : ℕ
max_backoff = 10_000_000_000

-- `if backoff *= 2; backoff > maxBackoff { backoff = maxBackoff }`
abbrev pub doubled : ℕ → ℕ
doubled b = if ltb max_backoff (2 * b) then max_backoff else 2 * b

-- How long a worker waits after its `n`th subscription in a row has ended, from 0.
unfoldable pub worker_backoff : ℕ → ℕ
worker_backoff zero = 500_000_000
worker_backoff (suc n) = doubled (worker_backoff n)
