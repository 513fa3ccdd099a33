-- ===== src/Health.antt =====
-- internal/obs/health.go: the readiness of a service. The outcomes of the probes stand in the order in
-- which they arrive; the build's identity is left out.
pub mod Reports
mod Tests
use quorum_market.Common.{
  ℕ, ◌+◌, Bool, true, false, not, ◌&&◌, Option, none, some, List, [], ◌∷◌, ltb, if◌then◌else◌, Str,
  bytes, is_empty, str_eq, Assoc, insert,
}

abbrev pub status_up : Str
status_up = bytes "up"

abbrev pub status_degraded : Str
status_degraded = bytes "degraded"

abbrev pub status_down : Str
status_down = bytes "down"

pub record CheckResult : Type 0 where
  pub status : Str
  pub error : Str
  pub is_optional : Bool
  pub took_ms : ℕ

pub record Report : Type 0 where
  pub status : Str
  pub checks : Assoc CheckResult

-- A probe that has ended: its name, its error if it has one, and how long it took.
pub record Outcome : Type 0 where
  pub name : Str
  pub error : Option Str
  pub is_optional : Bool
  pub took_ms : ℕ

-- `ttl` is in nanoseconds.
pub record Health : Type 0 where
  pub ttl : ℕ
  pub is_draining : Bool
  pub cached : Report
  pub cached_at : ℕ

abbrev pub empty_report : Report
empty_report = record { status = []; checks = [] }

-- `NewHealth`, of which the checks stand with their outcomes
abbrev pub new_health : Health
new_health = record {
  ttl = 2_000_000_000;
  is_draining = false;
  cached = empty_report;
  cached_at = 0;
}

-- `Drain`
unfoldable pub drain : Health → Health
drain h = record h { is_draining = true }

-- The result of a probe.
unfoldable pub result_of : Outcome → CheckResult
result_of o = elim o.error [
  | none ↦ record {
    status = status_up;
    error = [];
    is_optional = o.is_optional;
    took_ms = o.took_ms;
  }
  | some e ↦ record {
    status = status_down;
    error = e;
    is_optional = o.is_optional;
    took_ms = o.took_ms;
  }
]

-- The status of the report after one more result.
unfoldable pub worsened : Str → CheckResult → Str
worsened status r =
    if str_eq r.status status_up
    then status
    else if r.is_optional
    then if str_eq status status_up then status_degraded else status
    else status_down

-- The loop of `evaluate` over the outcomes.
collect : Report → List Outcome → Report
unfolding result_of worsened
collect report [] = report
collect report (o ∷ os) =
    collect
      (record {
        status = worsened report.status (result_of o);
        checks = insert o.name (result_of o) report.checks;
      })
      os

unfoldable pub evaluate : List Outcome → Report
unfolding collect
evaluate os = collect (record { status = status_up; checks = [] }) os

abbrev pub draining_report : Report
draining_report = record {
  status = status_down;
  checks =
      (
        bytes "shutdown",
        record { status = bytes "draining"; error = []; is_optional = false; took_ms = 0 },
      )
      ∷ [];
}

-- `Report`, which is asked at `now`; its probes have ended at `done_at`.
unfoldable pub report : ℕ → ℕ → List Outcome → Health → Report × Health
unfolding evaluate
report now done_at os h =
    if h.is_draining
    then (draining_report, h)
    else if ltb now (h.cached_at + h.ttl) && not (is_empty h.cached.status)
    then (h.cached, h)
    else (evaluate os, record h { cached = evaluate os; cached_at = done_at })
