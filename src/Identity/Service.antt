-- ===== src/Identity/Service.antt =====
-- internal/identity/identity.go: registration, login, refresh, logout and profiles. Which of the calls
-- to a store fail, the time, and the random tokens are arguments.
pub mod Registering
pub mod Access
pub mod Accounts
pub mod Sessions
use quorum_market.Common.{
  ℕ, ◌+◌, ◌/◌, Bool, true, false, not, ◌||◌, Option, none, some, List, [], ◌∷◌, ◌++◌, ℤ, pos,
  pos_part, leb_ℤ, if◌then◌else◌, Str, bytes, is_empty,
}
use quorum_market.Httpx.Errors.{Error, errorf, wrap, plain, Result, ok, err}
use quorum_market.Auth.{Jwt, Signer, Claims, issue, nanos}
use quorum_market.Identity.Stores.{Db, Redis, User, Library}
use quorum_market.Identity.Credentials.{normalize_email, validate_password}

pub record Profile : Type 0 where
  pub customer_id : Str
  pub email : Str
  pub roles : List Str
  pub created_at : ℕ

abbrev pub profile_of : User → Profile
profile_of u = record {
  customer_id = u.customer_id;
  email = u.email;
  roles = u.roles;
  created_at = u.created_at;
}

pub record Tokens : Type 0 where
  pub access_token : Str
  pub refresh_token : Str
  pub expires_in : ℕ
  pub expires_at : ℕ
  pub profile : Profile

-- Whether the call fails.
pub record Faults : Type 0 where
  pub index_get : Bool
  pub user_get : Bool
  pub user_put : Bool
  pub index_put : Bool
  pub refresh_set : Bool
  pub refresh_get : Bool
  pub revoke_set : Bool

abbrev pub no_faults : Faults
no_faults = record {
  index_get = false;
  user_get = false;
  user_put = false;
  index_put = false;
  refresh_set = false;
  refresh_get = false;
  revoke_set = false;
}

-- The time, and the tokens that `randomToken` draws.
pub record Draw : Type 0 where
  pub now : ℕ
  pub customer : Str
  pub session : Str
  pub refresh : Str

pub record Service (D S : Type 0) : Type 0 where
  pub db : Db D
  pub redis : Redis S
  pub lib : Library
  pub jwt : Jwt
  pub signer : Signer
  pub refresh_ttl : ℕ

-- `NewService`
unfoldable pub new_service :
    {D S : Type 0} → Db D → Redis S → Library → Jwt → Signer → ℤ → Service D S
new_service db redis lib jwt signer refresh_ttl = record {
  db = db;
  redis = redis;
  lib = lib;
  jwt = jwt;
  signer = signer;
  refresh_ttl = if leb_ℤ refresh_ttl (pos 0) then 604_800_000_000_000 else pos_part refresh_ttl;
}

pub record Stores (D S : Type 0) : Type 0 where
  pub accounts : D
  pub sessions : S

abbrev pub user_key : Str → Str
user_key customer_id = bytes "user:" ++ customer_id

abbrev pub email_key : Str → Str
email_key email = bytes "user-email:" ++ email

abbrev pub refresh_key : Str → Str
refresh_key digest = bytes "session:refresh:" ++ digest

abbrev pub revoked_key : Str → Str
revoked_key session_id = bytes "session:revoked:" ++ session_id

abbrev pub new_customer_id : Str → Str
new_customer_id token = bytes "cust-" ++ token

abbrev pub new_session_id : Str → Str
new_session_id token = bytes "sess-" ++ token

unavailable : Error
unavailable = wrap 503 plain

-- A stored account that has been read.
decoded : Option User → Result (Option User)
decoded none = err (wrap 500 plain)
decoded (some u) = ok (some u)

decode_found : Library → Option Str → Result (Option User)
unfolding decoded
decode_found lib none = ok none
decode_found lib (some raw) = decoded (lib.decode raw)

module _ {D S : Type 0} (s : Service D S) where
  unfoldable pub load_user : Bool → Str → D → Result (Option User)
  unfolding decode_found unavailable
  load_user fails customer_id d =
      if is_empty customer_id
      then ok none
      else if fails
      then err unavailable
      else decode_found s.lib (s.db.get (user_key customer_id) d)

  load_indexed : Bool → Option Str → D → Result (Option User)
  unfolding load_user
  load_indexed fails none d = ok none
  load_indexed fails (some id) d = load_user fails id d

  unfoldable pub lookup_by_email : Faults → Str → D → Result (Option User)
  unfolding load_indexed unavailable
  lookup_by_email f email d =
      if f.index_get
      then err unavailable
      else load_indexed f.user_get (s.db.get (email_key email) d) d

  -- `saveUser`
  unfoldable pub save_user : Bool → User → D → Option Error × D
  unfolding unavailable
  save_user fails u d =
      if fails
      then (some unavailable, d)
      else (none, s.db.put (user_key u.customer_id) (s.lib.encode u) d)

  grant : Bool → Draw → User → Stores D S → Result (Str × Claims) → Result Tokens × Stores D S
  unfolding unavailable
  grant fails draw u w (err e) = (err (wrap 500 e), w)
  grant fails draw u w (ok (token, claims)) = if fails then (err unavailable, w) else (
    ok (record {
      access_token = token;
      refresh_token = draw.refresh;
      expires_in = s.signer.ttl / 1_000_000_000;
      expires_at = nanos claims.expires_at;
      profile = profile_of u;
    }),
    record w {
      sessions =
          s.redis.set draw.now (refresh_key (s.lib.digest draw.refresh)) u.customer_id s.refresh_ttl
            w.sessions;
    },
  )

  -- `issue`
  unfoldable pub issue_tokens : Bool → Draw → User → Stores D S → Result Tokens × Stores D S
  unfolding grant
  issue_tokens fails draw u w =
      grant fails draw u w
        (issue s.jwt draw.now s.signer u.customer_id u.email u.roles (new_session_id draw.session))

  abbrev pub new_user : Draw → Str → Str → User
  new_user draw email h = record {
    customer_id = new_customer_id draw.customer;
    email = email;
    password_hash = h;
    roles = bytes "customer" ∷ [];
    created_at = draw.now;
  }
