-- ===== src/Auth/Subjects.antt =====
-- The subjects that `Verify` of internal/auth/auth.go accepts.
use quorum_market.Common.{
  ℕ, ◌≡◌, Bool, true, false, Option, none, some, Str, is_empty, arith, Bool-cases,
}
use quorum_market.Httpx.Errors.{Result, ok, err}
use quorum_market.Auth.{Jwt, Verifier, Claims, verify, check_claims, unless_revoked, answer_of}

answer_of-same : (c d : Claims) (r : Result Bool) → answer_of c r ≡ some d → c ≡ d
unfolding answer_of
answer_of-same c d (err e) h = cc
answer_of-same c d (ok true) h = cc
answer_of-same c d (ok false) h = cc

unless_revoked-same :
    (c d : Claims) (check : Option (Str → Result Bool)) → unless_revoked c check ≡ some d → c ≡ d
unfolding unless_revoked
unless_revoked-same c d none h = cc
unless_revoked-same c d (some check) h =
    ground (arith, h, Bool-cases (is_empty c.id), answer_of-same c d (check c.id))

check_claims-subject :
    (v : Verifier) (o : Option Claims) (d : Claims)
    → check_claims v o ≡ some d
    → is_empty d.subject ≡ false
unfolding check_claims
check_claims-subject v none d h = cc
check_claims-subject v (some c) d h =
    ground (arith, h, Bool-cases (is_empty c.subject), unless_revoked-same c d v.revoked)

-- None is empty.
pub verify-subject :
    (jwt : Jwt) (now : ℕ) (v : Verifier) (token : Str) (c : Claims)
    → verify jwt now v token ≡ some c
    → is_empty c.subject ≡ false
unfolding verify
verify-subject jwt now v token c h =
    check_claims-subject v (jwt.parse v.secret v.issuer now token) c h
