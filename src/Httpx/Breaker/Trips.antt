-- ===== src/Httpx/Breaker/Trips.antt =====
-- Runs of outcomes through the breaker of internal/httpx/breaker.go.
use quorum_market.Common.{
  ℕ, zero, suc, ◌≤◌, ◌<◌, ◌≡◌, refl, true, false, arith, pos, max_i64, suc_i64,
}
use quorum_market.Httpx.Breaker.{Breaker, closed, half_open, opened, allow, record_outcome}

-- `n` failed calls, one after another, at the times of a clock.
abbrev pub failures : ℕ → (ℕ → ℕ) → Breaker → Breaker
failures zero clock b = b
failures (suc n) clock b = record_outcome (clock n) true (failures n clock b)

pub record HasFailed (n : ℕ) (b c : Breaker) : Type 0 where
  pub state : c.state ≡ closed
  pub counted : c.consecutive_failures ≡ pos n
  pub cfg : c.cfg ≡ b.cfg

failures-HasFailed :
    (n t : ℕ) (clock : ℕ → ℕ) (b : Breaker)
    → b.state ≡ closed
    → b.consecutive_failures ≡ pos 0
    → b.cfg.failure_threshold ≡ pos t
    → n < t
    → t < max_i64
    → HasFailed n b (failures n clock b)
unfolding record_outcome suc_i64
failures-HasFailed zero t clock b s z e lt small = record { state = s; counted = z; cfg = refl }
failures-HasFailed (suc n) t clock b s z e lt small =
    let before = failures-HasFailed n t clock b s z e (omega arith) small in
    record {
      state = ground (arith, before.state, before.counted, before.cfg, e);
      counted = ground (arith, before.state, before.counted, before.cfg, e);
      cfg = ground (arith, before.state, before.counted, before.cfg, e);
    }

-- A closed breaker that has counted no failure stays closed for as many consecutive failures as are
-- below its threshold, and the failure that reaches the threshold opens it, from its time on.
pub trips_at_threshold :
    (n t : ℕ) (clock : ℕ → ℕ) (b : Breaker)
    → b.state ≡ closed
    → b.consecutive_failures ≡ pos 0
    → b.cfg.failure_threshold ≡ pos (suc t)
    → suc t < max_i64
    → n ≤ t
    → ((failures n clock b).state ≡ closed)
      × ((failures (suc t) clock b).state ≡ opened)
      × ((failures (suc t) clock b).opened_at ≡ clock t)
unfolding record_outcome suc_i64
trips_at_threshold n t clock b s z e small le =
    let last = failures-HasFailed t (suc t) clock b s z e (omega arith) small in
    (
      (failures-HasFailed n (suc t) clock b s z e (omega arith) small).state,
      ground (arith, last.state, last.counted, last.cfg, e),
      ground (arith, last.state, last.counted, last.cfg, e),
    )

-- `n` probes in a row, each let through and successful.
abbrev pub probes : ℕ → (ℕ → ℕ) → Breaker → Breaker
probes zero clock b = b
probes (suc n) clock b =
    let before = probes n clock b in record_outcome (clock n) false (allow (clock n) before).1

record HasProbed (n : ℕ) (b c : Breaker) : Type 0 where
  state : c.state ≡ half_open
  counted : c.successes ≡ pos n
  free : c.in_flight ≡ false
  cfg : c.cfg ≡ b.cfg

probes-HasProbed :
    (n t : ℕ) (clock : ℕ → ℕ) (b : Breaker)
    → b.state ≡ half_open
    → b.successes ≡ pos 0
    → b.in_flight ≡ false
    → b.cfg.half_open_successes ≡ pos t
    → n < t
    → t < max_i64
    → HasProbed n b (probes n clock b)
unfolding record_outcome allow suc_i64
probes-HasProbed zero t clock b s z f e lt small = record {
  state = s;
  counted = z;
  free = f;
  cfg = refl;
}
probes-HasProbed (suc n) t clock b s z f e lt small =
    let before = probes-HasProbed n t clock b s z f e (omega arith) small in
    record {
      state = ground (arith, before.state, before.counted, before.free, before.cfg, e);
      counted = ground (arith, before.state, before.counted, before.free, before.cfg, e);
      free = ground (arith, before.state, before.counted, before.free, before.cfg, e);
      cfg = ground (arith, before.state, before.counted, before.free, before.cfg, e);
    }

-- A half-open breaker that has seen no success and waits for no probe stays half-open for as many
-- successful probes as are below the configured number, and the probe that reaches it closes the
-- breaker.
pub recovers_after_probes :
    (n t : ℕ) (clock : ℕ → ℕ) (b : Breaker)
    → b.state ≡ half_open
    → b.successes ≡ pos 0
    → b.in_flight ≡ false
    → b.cfg.half_open_successes ≡ pos (suc t)
    → suc t < max_i64
    → n ≤ t
    → ((probes n clock b).state ≡ half_open) × ((probes (suc t) clock b).state ≡ closed)
unfolding record_outcome allow suc_i64
recovers_after_probes n t clock b s z f e small le =
    let last = probes-HasProbed t (suc t) clock b s z f e (omega arith) small in
    (
      (probes-HasProbed n (suc t) clock b s z f e (omega arith) small).state,
      ground (arith, last.state, last.counted, last.free, last.cfg, e),
    )
