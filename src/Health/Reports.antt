-- ===== src/Health/Reports.antt =====
-- What the readiness reports of internal/obs/health.go say.
use quorum_market.Common.{
  ℕ, ◌+◌, ◌≡◌, ◌≤◌, refl, ap, Bool, true, false, not, ◌&&◌, ◌||◌, none, some, List, [], ◌∷◌, ltb,
  if◌then◌else◌, Str, is_empty, str_eq, Assoc, insert, arith, Bool-cases, Option-cases, inl, inr,
  ◌∙◌,
}
use quorum_market.Health.{
  Health, CheckResult, Outcome, evaluate, collect, report, drain, result_of, worsened, status_up,
  status_degraded, status_down,
}

abbrev pub has_failed : Outcome → Bool
has_failed o = elim o.error [ none ↦ false | some e ↦ true ]

-- Whether some probe has failed, and whether some that is not optional has.
abbrev pub some_failed : List Outcome → Bool
some_failed [] = false
some_failed (o ∷ os) = has_failed o || some_failed os

abbrev pub some_required_failed : List Outcome → Bool
some_required_failed [] = false
some_required_failed (o ∷ os) = (has_failed o && not o.is_optional) || some_required_failed os

-- A failure of a required dependency is worse than one of an optional one.
abbrev pub worst_status : Bool → Bool → Str
worst_status required any =
    if required then status_down else if any then status_degraded else status_up

worsened-worst_status :
    (required any : Bool) (o : Outcome)
    → worsened (worst_status required any) (result_of o)
      ≡ worst_status ((has_failed o && not o.is_optional) || required) (has_failed o || any)
unfolding worsened result_of str_eq
worsened-worst_status true any o = elim (Option-cases o.error) [
  | inl fine ↦ ground (arith, fine)
  | inr (e, bad) ↦ ground (arith, bad, Bool-cases o.is_optional)
]
worsened-worst_status false true o = elim (Option-cases o.error) [
  | inl fine ↦ ground (arith, fine)
  | inr (e, bad) ↦ ground (arith, bad, Bool-cases o.is_optional)
]
worsened-worst_status false false o = elim (Option-cases o.error) [
  | inl fine ↦ ground (arith, fine)
  | inr (e, bad) ↦ ground (arith, bad, Bool-cases o.is_optional)
]

collect-status :
    (required any : Bool) (checks : Assoc CheckResult) (os : List Outcome)
    → (collect (record { status = worst_status required any; checks = checks }) os).status
      ≡ worst_status (some_required_failed os || required) (some_failed os || any)
unfolding collect
collect-status required any checks [] = refl
collect-status required any checks (o ∷ os) =
    let here = worsened-worst_status required any o in
    let required' = (has_failed o && not o.is_optional) || required in
    let any' = has_failed o || any in
    let checks' = insert o.name (result_of o) checks in
    ap (λ st. (collect (record { status = st; checks = checks' }) os).status) here
    ∙ (collect-status required' any' checks' os ∙ ground arith)

-- In whatever order the probes end, a service is down if a required probe has failed, degraded if only
-- optional ones have, and up if none has.
pub status_is_worst :
    (os : List Outcome)
    → (evaluate os).status ≡ worst_status (some_required_failed os) (some_failed os)
unfolding evaluate
status_is_worst os = collect-status false false [] os ∙ ground arith

is_empty-evaluate : (os : List Outcome) → is_empty (evaluate os).status ≡ false
unfolding is_empty
is_empty-evaluate os = rw (status_is_worst os) (go (some_required_failed os) (some_failed os))
  where
    go : (required any : Bool) → is_empty (worst_status required any) ≡ false
    go true any = refl
    go false true = refl
    go false false = refl

-- A report that is evaluated is given again, whatever the probes would say, until its lifetime has passed
-- since they ended, and then the probes are asked again; once the service drains, it is told as down.
-- The service is not draining, and the report before has outlived its lifetime.
pub reports_are_cached :
    (now done_at later done_later : ℕ) (os os' : List Outcome) (h : Health)
    → h.is_draining ≡ false
    → h.cached_at + h.ttl ≤ now
    → let (r, h') = report now done_at os h in
      ((report later done_later os' h').0
        ≡ (if ltb later (done_at + h.ttl) then r else evaluate os'))
      × ((report later done_later os' (drain h')).0.status ≡ status_down)
unfolding report drain
reports_are_cached now done_at later done_later os os' h serving old =
    let stale : ltb now (h.cached_at + h.ttl) ≡ false = ground (arith, old) in
    let asked : report now done_at os h
        ≡ (evaluate os, record h { cached = evaluate os; cached_at = done_at }) =
      rw (serving, stale) refl in
    let again : (report later done_later os'
          (record h { cached = evaluate os; cached_at = done_at })).0
        ≡ (if ltb later (done_at + h.ttl) then evaluate os else evaluate os') =
      ground (arith, serving, is_empty-evaluate os) in
    rw asked (again, refl)
