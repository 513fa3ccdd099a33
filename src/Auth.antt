-- ===== src/Auth.antt =====
-- internal/auth/auth.go: access tokens. The signature and the parsing of a token are the JWT
-- library's, whose interface is a parameter. Times are in nanoseconds, those of a token in seconds.
pub mod Validity
pub mod Subjects
pub mod Toy
use quorum_market.Common.{
  ℕ, suc, ◌+◌, ◌*◌, ◌/◌, ◌≡◌, ◌≤◌, ◌<◌, Bool, true, false, ◌||◌, ◌&&◌, Option, none, some, List, [],
  ◌∷◌, ℤ, pos, pos_part, leb_ℤ, ltb, leb, ◌==◌, if◌then◌else◌, length, Str, bytes, is_empty, str_eq,
}
use quorum_market.Httpx.Errors.{Error, plain, errorf, Result, ok, err}

pub record Claims : Type 0 where
  pub subject : Str
  pub issuer : Str
  pub issued_at : ℕ
  pub not_before : ℕ
  pub expires_at : ℕ
  pub id : Str
  pub email : Str
  pub roles : List Str

-- A nanosecond of a second that a token names.
abbrev pub nanos : ℕ → ℕ
nanos seconds = seconds * 1_000_000_000

-- The JWT library with the options that the repository gives it: signing by HS256, and parsing at a
-- time, for an issuer, with an expiry required.
pub record Jwt : Type 0 where
  pub sign : Str → Claims → Option Str
  pub parse : Str → Str → ℕ → Str → Option Claims

-- Its documented behaviour on the tokens it has signed.
pub record JwtLaws (jwt : Jwt) : Type 0 where
  pub parse-sign :
      (secret : Str) (c : Claims) (token : Str) (now : ℕ)
      → jwt.sign secret c ≡ some token
      → nanos c.not_before ≤ now
      → now < nanos c.expires_at
      → jwt.parse secret c.issuer now token ≡ some c
  pub parse_expired :
      (secret : Str) (c : Claims) (token : Str) (now : ℕ)
      → jwt.sign secret c ≡ some token
      → nanos c.expires_at ≤ now
      → jwt.parse secret c.issuer now token ≡ none

-- `HasRole`
unfoldable pub has_role : Str → List Str → Bool
has_role role [] = false
has_role role (held ∷ roles) = if str_eq held role then true else has_role role roles

pub record Signer : Type 0 where
  pub secret : Str
  pub issuer : Str
  pub ttl : ℕ

abbrev pub min_secret_length : ℕ
min_secret_length = 32

unfoldable pub new_signer : Str → Str → ℤ → Result Signer
new_signer secret issuer ttl =
    if ltb (length secret) min_secret_length
    then err plain
    else ok (record {
      secret = secret;
      issuer = issuer;
      ttl = if leb_ℤ ttl (pos 0) then 900_000_000_000 else pos_part ttl;
    })

-- `NewNumericDate`, which cuts a time to its second
abbrev pub numeric_date : ℕ → ℕ
numeric_date t = t / 1_000_000_000

unfoldable pub claims_of : ℕ → Signer → Str → Str → List Str → Str → Claims
claims_of now s customer_id email roles session_id = record {
  subject = customer_id;
  issuer = s.issuer;
  issued_at = numeric_date now;
  not_before = numeric_date now;
  expires_at = numeric_date (now + s.ttl);
  id = session_id;
  email = email;
  roles = roles;
}

signed_or_failed : Claims → Option Str → Result (Str × Claims)
signed_or_failed c none = err plain
signed_or_failed c (some token) = ok (token, c)

unfoldable pub issue : Jwt → ℕ → Signer → Str → Str → List Str → Str → Result (Str × Claims)
unfolding claims_of signed_or_failed
issue jwt now s customer_id email roles session_id =
    let c = claims_of now s customer_id email roles session_id in
    signed_or_failed c (jwt.sign s.secret c)

-- `revoked` is absent until `WithRevocationCheck` sets it.
pub record Verifier : Type 0 where
  pub secret : Str
  pub issuer : Str
  pub revoked : Option (Str → Result Bool)

unfoldable pub new_verifier : Str → Str → Result Verifier
new_verifier secret issuer =
    if ltb (length secret) min_secret_length
    then err plain
    else ok (record { secret = secret; issuer = issuer; revoked = none })

unfoldable pub with_revocation_check : (Str → Result Bool) → Verifier → Verifier
with_revocation_check check v = record v { revoked = some check }

-- A denylist that cannot be reached revokes nothing.
answer_of : Claims → Result Bool → Option Claims
answer_of c (err e) = some c
answer_of c (ok true) = none
answer_of c (ok false) = some c

unfoldable pub unless_revoked : Claims → Option (Str → Result Bool) → Option Claims
unfolding answer_of
unless_revoked c none = some c
unless_revoked c (some check) = if is_empty c.id then some c else answer_of c (check c.id)

check_claims : Verifier → Option Claims → Option Claims
unfolding unless_revoked
check_claims v none = none
check_claims v (some c) = if is_empty c.subject then none else unless_revoked c v.revoked

-- `Verify`; `none` is ErrUnauthenticated
unfoldable pub verify : Jwt → ℕ → Verifier → Str → Option Claims
unfolding check_claims
verify jwt now v token = check_claims v (jwt.parse v.secret v.issuer now token)

abbrev lower_byte : ℕ → ℕ
lower_byte c = if leb b'A' c && leb c b'Z' then c + 32 else c

-- The rest of a header behind a prefix, whatever the case of its letters.
after_prefix : Str → Str → Option Str
after_prefix [] header = some header
after_prefix (p ∷ prefix) [] = none
after_prefix (p ∷ prefix) (c ∷ header) =
    let rest = after_prefix prefix header in if lower_byte p == lower_byte c then rest else none

trimmed : (Str → Str) → Option Str → Option Str
trimmed trim_space none = none
trimmed trim_space (some rest) = if is_empty rest then none else some (trim_space rest)

-- `BearerToken` of an Authorization header; `trim_space` is strings.TrimSpace.
unfoldable pub bearer_token : (Str → Str) → Str → Option Str
unfolding after_prefix trimmed
bearer_token trim_space header = trimmed trim_space (after_prefix (bytes "Bearer ") header)
