-- ===== src/Gateway/Headers.antt =====
-- The identity headers that internal/gateway/gateway.go passes on to the services.
use quorum_market.Common.{
  ℕ, ◌≡◌, ◌⊎◌, refl, inl, inr, true, Option, none, some, subst, if◌then◌else◌, arith, Str, bytes,
  str_eq, is_empty, Assoc, lookup, lookup-insert, lookup-delete, Bool-cases, Option-cases,
}
use quorum_market.Httpx.Errors.{ok, Result-cases}
use quorum_market.Auth.{Claims, Verifier, verify, bearer_token}
use quorum_market.RateLimit.{Bucket}
use quorum_market.Gateway.{
  Config, Route, Request, Moment, forwarded, strip, authenticate, authenticate_with, verified,
  handle_request, set_identity, customer_id_header, customer_email_header, customer_roles_header,
  header_of, has_roles, join_roles, identify, throttle,
}

-- None of the identity headers.
abbrev pub IsAnonymous : Assoc Str → Type 0
IsAnonymous headers =
    (lookup customer_id_header headers ≡ none)
    × (lookup customer_email_header headers ≡ none)
    × (lookup customer_roles_header headers ≡ none)

-- The identity headers are the claims', and no others.
abbrev pub Names : Claims → Assoc Str → Type 0
Names c headers =
    (lookup customer_id_header headers ≡ some c.subject)
    × (lookup customer_email_header headers ≡ (if is_empty c.email then none else some c.email))
    × (lookup customer_roles_header headers
        ≡ (if has_roles c.roles then some (join_roles c.roles) else none))

strip-IsAnonymous : (headers : Assoc Str) → IsAnonymous (strip headers)
unfolding strip str_eq
strip-IsAnonymous headers = (simp lookup-delete, simp lookup-delete, simp lookup-delete)

lookup-strip_authorization :
    (headers : Assoc Str)
    → lookup (bytes "Authorization") (strip headers) ≡ lookup (bytes "Authorization") headers
unfolding strip str_eq
lookup-strip_authorization headers = simp lookup-delete

set_identity-Names :
    (c : Claims) (headers : Assoc Str) → IsAnonymous headers → Names c (set_identity c headers)
unfolding set_identity str_eq
set_identity-Names c headers (i, e, r) = elim (Bool-cases (is_empty c.email)) [
  | inl silent ↦ elim (Bool-cases (has_roles c.roles)) [
    | inl some_roles ↦
        rw (silent, some_roles) (simp lookup-insert, simp (lookup-insert, e), simp lookup-insert)
    | inr no_roles ↦
        rw (silent, no_roles) (simp lookup-insert, simp (lookup-insert, e), simp (lookup-insert, r))
  ]
  | inr known ↦ elim (Bool-cases (has_roles c.roles)) [
    | inl some_roles ↦
        rw (known, some_roles) (simp lookup-insert, simp lookup-insert, simp lookup-insert)
    | inr no_roles ↦
        rw (known, no_roles) (simp lookup-insert, simp lookup-insert, simp (lookup-insert, r))
  ]
]

-- A verifier accepts the token of the request's Authorization header, with the claims.
pub record Verified (cfg : Config) (now : ℕ) (headers : Assoc Str) (c : Claims) : Type 0 where
  pub token : Str
  pub verifier : Verifier
  pub presented :
      bearer_token cfg.trim_space (header_of (bytes "Authorization") headers) ≡ some token
  pub configured : cfg.verifier ≡ some verifier
  pub accepted : verify cfg.jwt now verifier token ≡ some c

authenticate_with-Verified :
    (cfg : Config) (now : ℕ) (headers : Assoc Str) (c : Claims) (t : Option Str)
    (v : Option Verifier)
    → bearer_token cfg.trim_space (header_of (bytes "Authorization") headers) ≡ t
    → cfg.verifier ≡ v
    → authenticate_with cfg.jwt now v t ≡ ok c
    → Verified cfg now headers c
unfolding authenticate_with verified
authenticate_with-Verified cfg now headers c none v et ev h = cc
authenticate_with-Verified cfg now headers c (some token) none et ev h = cc
authenticate_with-Verified cfg now headers c (some token) (some v) et ev h =
    elim (Option-cases (verify cfg.jwt now v token)) [
      | inl refused ↦ absurd (ground (arith, refused, h))
      | inr (d, accepted) ↦ record {
        token = token;
        verifier = v;
        presented = et;
        configured = ev;
        accepted = ground (arith, accepted, h);
      }
    ]

authenticate-Verified :
    (cfg : Config) (now : ℕ) (headers : Assoc Str) (c : Claims)
    → authenticate cfg now (strip headers) ≡ ok c
    → Verified cfg now headers c
unfolding authenticate
authenticate-Verified cfg now headers c h =
    let shown = bearer_token cfg.trim_space (header_of (bytes "Authorization") headers) in
    authenticate_with-Verified cfg now headers c shown cfg.verifier refl refl
      (rw (lookup-strip_authorization headers) at h)

-- Whatever identity headers a client sends, a request that is forwarded carries either those of the
-- claims of a token that it presents and that the verifier accepts, or none, and then the route is
-- public.
pub forwarded_identity :
    (cfg : Config) (route : Route) (m : Moment) (r : Request) (buckets : Assoc Bucket)
    (headers : Assoc Str)
    → (handle_request cfg route m r buckets).0 ≡ forwarded headers
    → ((c : Claims) × Verified cfg m.now r.headers c × Names c headers)
      ⊎ (IsAnonymous headers × (route.is_public ≡ true))
unfolding handle_request
forwarded_identity cfg route m r buckets headers h =
    let kept = strip r.headers in
    let who = authenticate cfg m.now kept in
    let turn = throttle cfg m (identify cfg kept r.remote_addr who) buckets in
    elim (Result-cases who) [
      | inl (c, known) ↦ inl (
        c,
        authenticate-Verified cfg m.now r.headers c known,
        elim (Option-cases turn.0) [
          | inr (n, wait) ↦ absurd (ground (arith, known, wait, h))
          | inl go ↦
              let same : set_identity c kept ≡ headers = ground (arith, known, go, h) in
              subst (Names c) same (set_identity-Names c kept (strip-IsAnonymous r.headers))
        ],
      )
      | inr (e, unknown) ↦ elim (Bool-cases route.is_public) [
        | inr private ↦ absurd (ground (arith, unknown, private, h))
        | inl open_route ↦ elim (Option-cases turn.0) [
          | inr (n, wait) ↦ absurd (ground (arith, unknown, open_route, wait, h))
          | inl go ↦
              let same : kept ≡ headers = ground (arith, unknown, open_route, go, h) in
              inr (subst IsAnonymous same (strip-IsAnonymous r.headers), open_route)
        ]
      ]
    ]
