-- ===== src/Health/Tests.antt =====
-- internal/obs/health.go on concrete inputs.
use quorum_market.Common.{
  str_eq, is_empty, ◌≡◌, refl, true, false, none, some, List, [], ◌∷◌, bytes,
}
use quorum_market.Health.{
  Outcome, new_health, evaluate, report, status_degraded, collect, result_of, worsened,
}

abbrev broker_down : List Outcome
broker_down =
    record {
      name = bytes "broker";
      error = some (bytes "refused");
      is_optional = true;
      took_ms = 3;
    }
    ∷ (record { name = bytes "db"; error = none; is_optional = false; took_ms = 1 } ∷ [])

abbrev all_well : List Outcome
all_well = record { name = bytes "db"; error = none; is_optional = false; took_ms = 1 } ∷ []

-- A broker that is optional degrades the service.
broker_degrades : (evaluate broker_down).status ≡ status_degraded
unfolding evaluate collect result_of worsened str_eq
broker_degrades = refl

told_again :
    let h' = (report 3_000_000_000 3_100_000_000 broker_down new_health).1 in
    (report 4_000_000_000 4_100_000_000 all_well h').0.status ≡ status_degraded
unfolding report evaluate collect result_of worsened str_eq is_empty
told_again = refl
