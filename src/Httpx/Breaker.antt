-- ===== src/Httpx/Breaker.antt =====
-- internal/httpx/breaker.go: the circuit breaker. `now` is the time that a method reads. The metrics
-- that it reports are left out.
pub mod Trips
pub mod Probes
use quorum_market.Common.{
  ℕ, suc, ◌+◌, Bool, true, false, not, ◌||◌, ◌&&◌, ℤ, pos, pos_part, ltb_ℤ, leb_ℤ, suc_i64, ltb,
  leb, if◌then◌else◌, ◌==◌,
}

pub data BreakerState : Type 0 where
  closed half_open opened : BreakerState

pub record BreakerConfig : Type 0 where
  pub failure_threshold : ℤ  -- int
  pub open_for : ℤ  -- time.Duration
  pub half_open_successes : ℤ  -- int

unfoldable pub with_defaults : BreakerConfig → BreakerConfig
with_defaults c = record {
  failure_threshold = if leb_ℤ c.failure_threshold (pos 0) then pos 5 else c.failure_threshold;
  open_for = if leb_ℤ c.open_for (pos 0) then pos 5000000000 else c.open_for;
  half_open_successes =
      if leb_ℤ c.half_open_successes (pos 0) then pos 2 else c.half_open_successes;
}

pub record Breaker : Type 0 where
  pub cfg : BreakerConfig
  pub state : BreakerState
  pub consecutive_failures : ℤ  -- int
  pub opened_at : ℕ
  pub successes : ℤ  -- int, `halfOpenSuccesses`
  pub in_flight : Bool  -- `halfOpenInFlight`

unfoldable pub new_breaker : BreakerConfig → Breaker
unfolding with_defaults
new_breaker cfg = record {
  cfg = with_defaults cfg;
  state = closed;
  consecutive_failures = pos 0;
  opened_at = 0;
  successes = pos 0;
  in_flight = false;
}

-- `time.Since(openedAt) < OpenFor`, where the defaults have made OpenFor positive
abbrev pub is_cooling : ℕ → Breaker → Bool
is_cooling now b = ltb now (b.opened_at + pos_part b.cfg.open_for)

allow_in : BreakerState → ℕ → Breaker → Bool × Breaker
allow_in closed now b = (true, b)
allow_in opened now b =
    if is_cooling now b
    then (false, b)
    else (true, record b { state = half_open; in_flight = true })
allow_in half_open now b = if b.in_flight then (false, b) else (true, record b { in_flight = true })

-- `Allow`: whether the call may proceed.
unfoldable pub allow : ℕ → Breaker → Bool × Breaker
unfolding allow_in
allow now b = allow_in b.state now b

abbrev is_half_open : BreakerState → Bool
is_half_open half_open = true
is_half_open _ = false

record_failure : ℕ → Breaker → Breaker
record_failure now b =
    let failures = suc_i64 b.consecutive_failures in
    if is_half_open b.state || leb_ℤ b.cfg.failure_threshold failures
    then record b {
      consecutive_failures = failures;
      opened_at = now;
      successes = pos 0;
      state = opened;
    }
    else record b { consecutive_failures = failures }

record_success : BreakerState → Breaker → Breaker
record_success half_open b =
    let done = suc_i64 b.successes in
    if leb_ℤ b.cfg.half_open_successes done
    then record b { consecutive_failures = pos 0; successes = pos 0; state = closed }
    else record b { consecutive_failures = pos 0; successes = done }
record_success opened b = record b { consecutive_failures = pos 0; state = closed }
record_success closed b = record b { consecutive_failures = pos 0 }

-- `Record`, with whether the call failed.
unfoldable pub record_outcome : ℕ → Bool → Breaker → Breaker
unfolding record_failure record_success
record_outcome now failed b =
    let b' = record b { in_flight = false } in
    if failed then record_failure now b' else record_success b'.state b'

-- `countsAsUnavailable`, with whether there is an error at all.
unfoldable pub counts_as_unavailable : ℕ → Bool → Bool
counts_as_unavailable status failed = (failed && status == 0) || (leb 500 status || status == 429)
