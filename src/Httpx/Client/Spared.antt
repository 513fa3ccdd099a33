-- ===== src/Httpx/Client/Spared.antt =====
-- The calls of internal/httpx/client.go to a dependency that is down, behind a breaker.
use quorum_market.Common.{
  ℕ, zero, suc, ◌+◌, ◌-◌, ◌≤◌, ◌<◌, ◌≡◌, refl, subst, inl, inr, Bool, true, Option, none, some,
  arith, ltb, if◌then◌else◌, Str, Bool-cases, pos, pos_part, max_i64, suc_i64,
}
use quorum_market.Httpx.Errors.{Error, wrap, plain}
use quorum_market.Httpx.Breaker.{
  Breaker, closed, opened, allow, record_outcome, is_cooling, counts_as_unavailable,
}
use quorum_market.Httpx.Client.{
  Client, Try, unsent, attempt, is_idempotent, allow_call, record_call, is_some_error, do_loop,
  call,
}
use quorum_market.Httpx.Client.Attempts.{do_loop_more}

-- The dependency cannot be reached at any attempt.
abbrev pub IsDown : (ℕ → Try) → Type 0
IsDown tries = (n : ℕ) → (e : Error) × ((tries n).exchange ≡ unsent e)

refused_when_cooling :
    (wanted : Bool) (tries : ℕ → Try) (left n : ℕ) (last : Option Error) (b : Breaker)
    → b.state ≡ opened
    → is_cooling (tries n).asked_at b ≡ true
    → (do_loop wanted tries left n last (some b)).sent ≡ 0
unfolding do_loop allow allow_call
refused_when_cooling wanted tries zero n last b s cool = refl
refused_when_cooling wanted tries (suc left) n last b s cool = ground (arith, s, cool)

-- A call through an open breaker that is cooling fails with 503 without sending anything, and
-- leaves the breaker as it is.
pub open_breaker_spares :
    (c : Client) (method : Str) (wanted : Bool) (tries : ℕ → Try) (b : Breaker)
    → 0 < c.max_attempts
    → c.breaker ≡ some b
    → b.state ≡ opened
    → is_cooling (tries 1).asked_at b ≡ true
    → (tries 1).context_error ≡ none
    → call c method none wanted tries
      ≡ record { error = some (wrap 503 plain); breaker = some b; sent = 0 }
unfolding call allow allow_call
open_breaker_spares c method wanted tries b p held s cool fine =
    let attempts = if is_idempotent method then c.max_attempts else 1 in
    let n : attempts ≡ suc (attempts - 1) = ground arith in
    rw (n, held) (ground (arith, fine, s, cool))

-- Every attempt is made before an opened breaker's cooling is over.
abbrev pub IsQuick : ℕ → (ℕ → Try) → Type 0
IsQuick open_for tries = (i j : ℕ) → (tries i).asked_at < (tries j).told_at + open_for

-- A closed breaker that has counted `f` failures in a row.
record Counts (f t open_for : ℕ) (b : Breaker) : Type 0 where
  state : b.state ≡ closed
  counted : b.consecutive_failures ≡ pos f
  threshold : b.cfg.failure_threshold ≡ pos t
  cools : pos_part b.cfg.open_for ≡ open_for

failure-Counts :
    (now f t open_for : ℕ) (b : Breaker)
    → Counts f t open_for b
    → suc f < t
    → t < max_i64
    → Counts (suc f) t open_for (record_outcome now true b)
unfolding record_outcome suc_i64
failure-Counts now f t open_for b c lt small = record {
  state = ground (arith, c.state, c.counted, c.threshold);
  counted = ground (arith, c.state, c.counted, c.threshold);
  threshold = ground (arith, c.state, c.counted, c.threshold);
  cools = ground (arith, c.state, c.counted, c.threshold, c.cools);
}

last_failure_opens :
    (now f t open_for asked : ℕ) (b : Breaker)
    → Counts f t open_for b
    → suc f ≡ t
    → t < max_i64
    → asked < now + open_for
    → let b' = record_outcome now true b in (b'.state ≡ opened) × (is_cooling asked b' ≡ true)
unfolding record_outcome suc_i64
last_failure_opens now f t open_for asked b c e small quick = (
  ground (arith, c.state, c.counted, c.threshold, c.cools),
  ground (arith, c.state, c.counted, c.threshold, c.cools),
)

-- What the breaker is told of an attempt that does not reach the dependency.
told_down :
    (wanted : Bool) (tries : ℕ → Try) (n : ℕ) (b : Breaker) (e : Error)
    → (tries n).exchange ≡ unsent e
    → b.state ≡ closed
    → let t = tries n in
      let (status, failed) = attempt wanted t.exchange in
      record_call t.told_at status (is_some_error failed) (allow_call t.asked_at (some b)).1
      ≡ some (record_outcome t.told_at true b)
unfolding attempt allow allow_call record_call counts_as_unavailable
told_down wanted tries n b e q s = rw q (ground (arith, s))

down_sent :
    (wanted : Bool) (tries : ℕ → Try) (left n f t open_for : ℕ) (last : Option Error) (b : Breaker)
    → IsDown tries
    → IsQuick open_for tries
    → Counts f t open_for b
    → f < t
    → t < max_i64
    → (do_loop wanted tries left n last (some b)).sent + f ≤ t
unfolding do_loop
down_sent wanted tries zero n f t open_for last b down quick c lt small = omega arith
down_sent wanted tries (suc left) n f t open_for last b down quick c lt small =
    let (e, q) = down n in
    let failed = (attempt wanted (tries n).exchange).1 in
    let b' = record_outcome (tries n).told_at true b in
    let more =
      subst
        (λ o.
          (do_loop wanted tries (suc left) n last (some b)).sent
          ≤ suc (do_loop wanted tries left (suc n) failed o).sent)
        (told_down wanted tries n b e q c.state) (do_loop_more wanted tries left n last (some b)) in
    elim (Bool-cases (ltb (suc f) t)) [
      | inl room ↦ omega (
        arith,
        more,
        down_sent wanted tries left (suc n) (suc f) t open_for failed b' down quick
            (failure-Counts (tries n).told_at f t open_for b c (ground arith) small) (ground arith)
            small,
      )
      | inr full ↦
          let (is_open, cooling) =
            last_failure_opens (tries n).told_at f t open_for (tries (suc n)).asked_at b c
              (ground arith) small (quick (suc n) n) in
          omega (
            arith,
            more,
            lt,
            refused_when_cooling wanted tries left (suc n) failed b' is_open cooling,
          )
    ]

-- A dependency that cannot be reached is sent no more requests by one call, through a closed breaker,
-- than the failures that the breaker has counted leave of its threshold, whatever the number of
-- attempts that the client is configured to make, as long as all are made before an opened breaker's
-- cooling is over.
pub down_dependency_is_spared :
    (c : Client) (method : Str) (encoding : Option Error) (wanted : Bool) (tries : ℕ → Try)
    (b : Breaker) (f t : ℕ)
    → c.breaker ≡ some b
    → b.state ≡ closed
    → b.consecutive_failures ≡ pos f
    → b.cfg.failure_threshold ≡ pos t
    → f < t
    → t < max_i64
    → IsDown tries
    → IsQuick (pos_part b.cfg.open_for) tries
    → (call c method encoding wanted tries).sent + f ≤ t
unfolding call
down_dependency_is_spared c method (some e) wanted tries b f t held s counted threshold lt small
      down quick =
    omega arith
down_dependency_is_spared c method none wanted tries b f t held s counted threshold lt small down
      quick =
    rw held (
      down_sent wanted tries (if is_idempotent method then c.max_attempts else 1) 1 f t
        (pos_part b.cfg.open_for) none b down quick
        (record { state = s; counted = counted; threshold = threshold; cools = refl }) lt small)
