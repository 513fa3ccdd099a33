-- ===== src/Rmq/Consumer/Waits.antt =====
-- The waits of the workers of internal/rmq/consumer.go.
use quorum_market.Common.{ℕ, zero, suc, ◌*◌, ◌^◌, ◌≡◌, refl, ltb, if◌then◌else◌, arith}
use quorum_market.Rmq.Consumer.{worker_backoff, max_backoff}

-- A worker that has lost its subscription n times before waits 500 ms times 2^n, and never longer
-- than ten seconds.
pub worker_backoff_doubles :
    (n : ℕ)
    → worker_backoff n
      ≡ (if ltb max_backoff (500_000_000 * 2 ^ n) then max_backoff else 500_000_000 * 2 ^ n)
unfolding worker_backoff
worker_backoff_doubles zero = refl
worker_backoff_doubles (suc n) = ground (arith, worker_backoff_doubles n)
