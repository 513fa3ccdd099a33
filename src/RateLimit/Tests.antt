-- ===== src/RateLimit/Tests.antt =====
-- internal/ratelimit on concrete inputs.
use quorum_market.Common.{
  ◌+◌, ◌≡◌, ◌≤◌, ◌<◌, refl, true, [], ◌∷◌, count, lookup, keep, insert, str_eq, bytes, arith,
}
use quorum_market.RateLimit.{Bucket, script}
use quorum_market.RateLimit.Window.{Served, within, start, admits, window_never_exceeded}
use quorum_market.RateLimit.Retry.{retry_is_admitted}

-- Two requests, at 100 and at 400 milliseconds, with a limit of two in a second.
abbrev used_up : Bucket
used_up = record { entries = (bytes "a", 100) ∷ ((bytes "b", 400) ∷ []); expires_at = 1400 }

two_served : Served 1000 2 400 (400 ∷ (100 ∷ [])) used_up
unfolding script lookup keep insert str_eq
two_served =
    admits (admits start 100 (bytes "a") (omega arith) refl refl) 400 (bytes "b") (omega arith) refl
      refl

window_never_exceeded_example : count (within 1000 50) (400 ∷ (100 ∷ [])) ≤ 2
window_never_exceeded_example =
    window_never_exceeded 1000 2 400 (400 ∷ (100 ∷ [])) used_up 50 two_served

retry_is_admitted_example :
    let out = script 1000 2 500 (bytes "c") used_up in
    (0 < out.0.retry)
    × (out.0.retry ≤ 1000)
    × ((script 1000 2 (500 + out.0.retry) (bytes "d") out.1).0.allowed ≡ true)
unfolding script keep
retry_is_admitted_example =
    retry_is_admitted 1000 2 400 (400 ∷ (100 ∷ [])) used_up 500 (bytes "c") (bytes "d") two_served
      (omega arith) (omega arith) refl
