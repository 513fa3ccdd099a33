-- ===== src/Httpx/Tests.antt =====
-- The client and the circuit breaker on concrete inputs.
use quorum_market.Common.{
  none, some, bytes, ◌≤◌, ℕ, ◌+◌, ◌≡◌, ◌≢◌, refl, true, false, arith, pos, suc_i64,
}
use quorum_market.Httpx.Errors.{plain}
use quorum_market.Httpx.Client.{Client, Try, unsent, call}
use quorum_market.Httpx.Client.Backoff.{DrawsBelow}
use quorum_market.Httpx.Client.Spared.{IsDown, IsQuick, down_dependency_is_spared}
use quorum_market.Httpx.Breaker.{
  Breaker, BreakerConfig, closed, half_open, opened, allow, record_outcome,
}

abbrev config : BreakerConfig
config = record { failure_threshold = pos 3; open_for = pos 5000; half_open_successes = pos 2 }

abbrev fresh : Breaker
fresh = record {
  cfg = config;
  state = closed;
  consecutive_failures = pos 0;
  opened_at = 0;
  successes = pos 0;
  in_flight = false;
}

abbrev tripped : Breaker
tripped = record fresh { state = opened; opened_at = 100 }

abbrev probing : Breaker
probing = record fresh { state = half_open }

abbrev busy : Breaker
busy = record probing { in_flight = true }

abbrev clock : ℕ → ℕ
clock n = 10 + n

opened-ne-closed : opened ≢ closed
opened-ne-closed e = cc

-- The success of an earlier call, told while the probe is in flight, lets a second call through.
second_probe_passes : (allow 11 (record_outcome 10 false busy)).0 ≡ true
unfolding allow record_outcome suc_i64
second_probe_passes = refl

abbrev client : Client
client = record {
  max_attempts = 5;
  base_delay = 50_000_000;
  max_delay = 1_000_000_000;
  breaker = some fresh;
}

-- Every attempt is refused by the network.
abbrev outage : ℕ → Try
outage n = record {
  context_error = none;
  asked_at = 10;
  exchange = unsent plain;
  told_at = 11;
  wait_error = none;
}

outage-IsDown : IsDown outage
outage-IsDown n = (plain, refl)

outage-IsQuick : IsQuick 5000 outage
outage-IsQuick i j = omega arith

down_dependency_is_spared_example : (call client (bytes "GET") none true outage).sent + 0 ≤ 3
down_dependency_is_spared_example =
    down_dependency_is_spared client (bytes "GET") none true outage fresh 0 3 refl refl refl refl
      (omega arith) (omega arith) outage-IsDown outage-IsQuick

abbrev least : ℕ → ℕ
least n = 0

least-DrawsBelow : DrawsBelow least
least-DrawsBelow n h = h
