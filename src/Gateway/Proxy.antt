-- ===== src/Gateway/Proxy.antt =====
-- The reverse proxy of internal/gateway/gateway.go, and the identity that reaches a service behind it.
-- `httputil.ReverseProxy` is a parameter: of what it does to a request, the headers that a Connection
-- header names are taken off, also those that the gateway has set.
use quorum_market.Common.{
  ◌≡◌, refl, Bool, false, none, some, if◌then◌else◌, ap, ◌∙◌, sym, inl, inr, arith, Str, bytes,
  str_eq, is_empty, Assoc, lookup, lookup-insert, lookup-delete, Bool-cases, Option-cases,
}
use quorum_market.Httpx.Errors.{Result-cases}
use quorum_market.Auth.{Claims}
use quorum_market.Auth.Subjects.{verify-subject}
use quorum_market.RateLimit.{Bucket}
use quorum_market.Gateway.{
  Config, Route, Request, Moment, forwarded, strip, authenticate, handle_request, set_identity,
  customer_id_header, header_of, has_roles, identify, throttle,
}
use quorum_market.Gateway.Headers.{Verified, forwarded_identity}

abbrev pub connection_header : Str
connection_header = bytes "Connection"

-- The headers of the outbound request, and whether the value of a Connection header names a header.
pub record ReverseProxy : Type 0 where
  pub outbound : Assoc Str → Assoc Str
  pub names : Str → Str → Bool

-- As documented of the proxy: the customer header passes unless the Connection header names it.
abbrev pub RemovesNamed : ReverseProxy → Type 0
RemovesNamed proxy =
    (headers : Assoc Str)
    → lookup customer_id_header (proxy.outbound headers) ≡ (
        if proxy.names (header_of connection_header headers) customer_id_header
        then none
        else lookup customer_id_header headers)

-- Whether a request has its customer header taken off on the way to the service.
abbrev pub loses_identity : ReverseProxy → Request → Bool
loses_identity proxy r = proxy.names (header_of connection_header r.headers) customer_id_header

lookup-strip_connection :
    (headers : Assoc Str)
    → lookup connection_header (strip headers) ≡ lookup connection_header headers
unfolding strip str_eq
lookup-strip_connection headers = simp lookup-delete

lookup-set_identity_connection :
    (c : Claims) (headers : Assoc Str)
    → lookup connection_header (set_identity c headers) ≡ lookup connection_header headers
unfolding set_identity str_eq
lookup-set_identity_connection c headers = elim (Bool-cases (is_empty c.email)) [
  | inl silent ↦ elim (Bool-cases (has_roles c.roles)) [
    | inl some_roles ↦ rw (silent, some_roles) (simp lookup-insert)
    | inr no_roles ↦ rw (silent, no_roles) (simp lookup-insert)
  ]
  | inr known ↦ elim (Bool-cases (has_roles c.roles)) [
    | inl some_roles ↦ rw (known, some_roles) (simp lookup-insert)
    | inr no_roles ↦ rw (known, no_roles) (simp lookup-insert)
  ]
]

-- The client's Connection header is handed to the proxy as it is.
lookup-connection :
    (cfg : Config) (route : Route) (m : Moment) (r : Request) (buckets : Assoc Bucket)
    (headers : Assoc Str)
    → (handle_request cfg route m r buckets).0 ≡ forwarded headers
    → lookup connection_header headers ≡ lookup connection_header r.headers
unfolding handle_request
lookup-connection cfg route m r buckets headers h =
    let kept = strip r.headers in
    let who = authenticate cfg m.now kept in
    let turn = throttle cfg m (identify cfg kept r.remote_addr who) buckets in
    let same_kept = lookup-strip_connection r.headers in
    elim (Result-cases who) [
      | inl (c, known) ↦ elim (Option-cases turn.0) [
        | inr (n, wait) ↦ absurd (ground (arith, known, wait, h))
        | inl go ↦
            let same : set_identity c kept ≡ headers = ground (arith, known, go, h) in
            ap (lookup connection_header) (sym same)
            ∙ (lookup-set_identity_connection c kept ∙ same_kept)
      ]
      | inr (e, unknown) ↦ elim (Bool-cases route.is_public) [
        | inr private ↦ absurd (ground (arith, unknown, private, h))
        | inl open_route ↦ elim (Option-cases turn.0) [
          | inr (n, wait) ↦ absurd (ground (arith, unknown, open_route, wait, h))
          | inl go ↦
              let same : kept ≡ headers = ground (arith, unknown, open_route, go, h) in
              ap (lookup connection_header) (sym same) ∙ same_kept
        ]
      ]
    ]

-- The customer that a service behind a private route is told of.
pub received_identity :
    (proxy : ReverseProxy) (cfg : Config) (route : Route) (m : Moment) (r : Request)
    (buckets : Assoc Bucket) (headers : Assoc Str)
    → RemovesNamed proxy
    → (handle_request cfg route m r buckets).0 ≡ forwarded headers
    → route.is_public ≡ false
    → (c : Claims) × Verified cfg m.now r.headers c
      × (is_empty c.subject ≡ false)
      × (lookup customer_id_header (proxy.outbound headers)
          ≡ (if loses_identity proxy r then none else some c.subject))
received_identity proxy cfg route m r buckets headers removes h private =
    elim (forwarded_identity cfg route m r buckets headers h) [
      | inr anonymous ↦ absurd (ground (arith, anonymous.1, private))
      | inl (c, known, names) ↦ (
        c,
        known,
        verify-subject cfg.jwt m.now known.verifier known.token c known.accepted,
        removes headers ∙ rw (lookup-connection cfg route m r buckets headers h, names.0) refl,
      )
    ]
