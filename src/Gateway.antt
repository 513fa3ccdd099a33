-- ===== src/Gateway.antt =====
-- internal/gateway/gateway.go: what the gateway does with a request before it hands it to a service.
-- `http.Header` is a map from canonical names to a value. What the proxy then does to the headers is in
-- Gateway.Proxy; the headers that advertise the budget are left out.
pub mod Headers
pub mod Proxy
pub mod Toy
mod Tests
use quorum_market.Common.{
  ℕ, suc, ◌/◌, ◌≡◌, Bool, true, false, not, ◌||◌, ◌&&◌, Option, none, some, List, [], ◌∷◌, ◌++◌,
  ltb, ◌==◌, if◌then◌else◌, Str, bytes, is_empty, Assoc, lookup, insert, delete,
}
use quorum_market.Httpx.Errors.{Error, errorf, Result, ok, err}
use quorum_market.Auth.{Jwt, Claims, Verifier, verify, bearer_token}
use quorum_market.RateLimit.{Limits, Bucket, Verdict, allow}

pub record Route : Type 0 where
  pub prefix : Str
  pub upstream : Str
  pub is_public : Bool
  pub name : Str

pub record Request : Type 0 where
  pub headers : Assoc Str
  pub remote_addr : Str

abbrev pub customer_id_header : Str
customer_id_header = bytes "X-Customer-Id"

abbrev pub customer_email_header : Str
customer_email_header = bytes "X-Customer-Email"

abbrev pub customer_roles_header : Str
customer_roles_header = bytes "X-Customer-Roles"

abbrev pub value_or_empty : Option Str → Str
value_or_empty none = []
value_or_empty (some v) = v

-- `r.Header.Get(name)`
abbrev pub header_of : Str → Assoc Str → Str
header_of name headers = value_or_empty (lookup name headers)

-- The configuration, with strings.TrimSpace and the host of net.SplitHostPort.
pub record Config : Type 0 where
  pub jwt : Jwt
  pub verifier : Option Verifier
  pub limits : Limits
  pub has_limiter : Bool
  pub trim_space : Str → Str
  pub split_host : Str → Option Str

-- The time, that of Redis, whether Redis answers, and the member that the limiter draws.
pub record Moment : Type 0 where
  pub now : ℕ
  pub redis_now : ℕ
  pub is_up : Bool
  pub member : Str

-- What the gateway does with a request: it fails it with a status, throttles it with the seconds of its
-- Retry-After header, or forwards it with these headers.
pub data Reply : Type 0 where
  failed : ℕ → Reply
  throttled : ℕ → Reply
  forwarded : Assoc Str → Reply

unfoldable pub strip : Assoc Str → Assoc Str
strip headers =
    delete customer_roles_header (delete customer_email_header (delete customer_id_header headers))

unfoldable pub verified : Option Claims → Result Claims
verified none = err (errorf 401)
verified (some c) = ok c

unfoldable pub authenticate_with : Jwt → ℕ → Option Verifier → Option Str → Result Claims
unfolding verified
authenticate_with jwt now v none = err (errorf 401)
authenticate_with jwt now none (some token) = err (errorf 401)
authenticate_with jwt now (some v) (some token) = verified (verify jwt now v token)

unfoldable pub authenticate : Config → ℕ → Assoc Str → Result Claims
unfolding authenticate_with
authenticate cfg now headers =
    authenticate_with cfg.jwt now cfg.verifier
      (bearer_token cfg.trim_space (header_of (bytes "Authorization") headers))

-- The bytes before the first comma, if one stands behind the first byte.
before_comma : Str → Option Str
before_comma [] = none
before_comma (c ∷ s) =
    let rest = before_comma s in
    if c == b',' then some [] else elim rest [ none ↦ none | some front ↦ some (c ∷ front) ]

abbrev first_of : Str → Option Str → Str
first_of forwarded_for none = forwarded_for
first_of forwarded_for (some front) = if is_empty front then forwarded_for else front

abbrev host_or : Str → Option Str → Str
host_or addr none = addr
host_or addr (some host) = host

unfoldable pub client_addr : Config → Assoc Str → Str → Str
unfolding before_comma
client_addr cfg headers remote_addr =
    let forwarded_for = header_of (bytes "X-Forwarded-For") headers in
    if is_empty forwarded_for
    then host_or remote_addr (cfg.split_host remote_addr)
    else cfg.trim_space (first_of forwarded_for (before_comma forwarded_for))

unfoldable pub identify : Config → Assoc Str → Str → Result Claims → Str
unfolding client_addr
identify cfg headers remote_addr (ok c) = bytes "customer:" ++ c.subject
identify cfg headers remote_addr (err e) = bytes "anon:" ++ client_addr cfg headers remote_addr

abbrev bucket_of : Option Bucket → Bucket
bucket_of none = record { entries = []; expires_at = 0 }
bucket_of (some b) = b

-- `allow`: none if the request may go on, and the seconds of Retry-After if not.
unfoldable pub retry_after_seconds : ℕ → ℕ
retry_after_seconds nanos = let s = nanos / 1_000_000_000 in if ltb s 1 then 1 else s

unfoldable pub throttle : Config → Moment → Str → Assoc Bucket → Option ℕ × Assoc Bucket
unfolding retry_after_seconds
throttle cfg m identity buckets =
    if not cfg.has_limiter
    then (none, buckets)
    else (let key = cfg.limits.prefix ++ identity in
        let (verdict, b) =
          allow cfg.limits true m.is_up m.redis_now m.member (bucket_of (lookup key buckets)) in
        (
          if verdict.allowed then none else some (retry_after_seconds verdict.retry_after),
          insert key b buckets,
        ))

-- `strings.Join(roles, ",")`
unfoldable pub join_roles : List Str → Str
join_roles [] = []
join_roles (role ∷ []) = role
join_roles (role ∷ (next ∷ roles)) = role ++ (b',' ∷ join_roles (next ∷ roles))

abbrev pub has_roles : List Str → Bool
has_roles [] = false
has_roles (role ∷ roles) = true

unfoldable pub set_identity : Claims → Assoc Str → Assoc Str
unfolding join_roles
set_identity c headers =
    let h = insert customer_id_header c.subject headers in
    let h' = if is_empty c.email then h else insert customer_email_header c.email h in
    if has_roles c.roles then insert customer_roles_header (join_roles c.roles) h' else h'

forward : Result Claims → Assoc Str → Reply
unfolding set_identity
forward (ok c) headers = forwarded (set_identity c headers)
forward (err e) headers = forwarded headers

abbrev is_anonymous : Result Claims → Bool
is_anonymous (ok c) = false
is_anonymous (err e) = true

admit : Result Claims → Assoc Str → Option ℕ × Assoc Bucket → Reply × Assoc Bucket
unfolding forward
admit who headers (some seconds, buckets) = (throttled seconds, buckets)
admit who headers (none, buckets) = (forward who headers, buckets)

-- The handler of `handlerFor`.
unfoldable pub handle_request :
    Config → Route → Moment → Request → Assoc Bucket → Reply × Assoc Bucket
unfolding admit throttle
handle_request cfg route m r buckets =
    let headers = strip r.headers in
    let who = authenticate cfg m.now headers in
    if is_anonymous who && not route.is_public
    then (failed 401, buckets)
    else admit who headers (throttle cfg m (identify cfg headers r.remote_addr who) buckets)
