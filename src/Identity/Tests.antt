-- ===== src/Identity/Tests.antt =====
-- internal/identity on concrete inputs.
use quorum_market.Common.{
  ◌≡◌, ◌≢◌, refl, false, none, some, [], ◌∷◌, Str, bytes, str_eq, is_empty, lookup, Assoc, arith,
}
use quorum_market.Httpx.Errors.{err, errorf}
use quorum_market.Auth.{Verifier, verify, issue}
use quorum_market.Auth.Toy.{toy, toy_sign, signer, token, alice, toy-JwtLaws, verifier}
use quorum_market.Identity.Stores.{User}
use quorum_market.Identity.Toy.{
  Timed, toy_db, toy_redis, toy_library, toy_db-DbLaws, toy_redis-RedisLaws,
  toy_library-LibraryLaws, toy_get,
}
use quorum_market.Identity.Service.{
  Service, Stores, Draw, Tokens, profile_of, no_faults, issue_tokens,
}
use quorum_market.Identity.Service.Registering.{register}
use quorum_market.Identity.Service.Access.{login, refresh, logout, revocation_check}
use quorum_market.Identity.Service.Accounts.{IsReadable, login_after_register}
use quorum_market.Identity.Service.Sessions.{refresh_single_use, logout_is_final}

abbrev service : Service (Assoc Str) (Assoc Timed)
service = record {
  db = toy_db;
  redis = toy_redis;
  lib = toy_library;
  jwt = toy;
  signer = signer;
  refresh_ttl = 604_800_000_000_000;
}

abbrev empty : Stores (Assoc Str) (Assoc Timed)
empty = record { accounts = []; sessions = [] }

abbrev draw : Draw
draw = record {
  now = 1_000_000_000_000;
  customer = bytes "1";
  session = bytes "1";
  refresh = bytes "first";
}

abbrev later : Draw
later = record draw { now = 1_100_000_000_000; refresh = bytes "second" }

abbrev first_tokens : Tokens
first_tokens = record {
  access_token = token;
  refresh_token = bytes "first";
  expires_in = 900;
  expires_at = 1_900_000_000_000;
  profile = record {
    customer_id = bytes "cust-1";
    email = bytes "a@b";
    roles = bytes "customer" ∷ [];
    created_at = 1_000_000_000_000;
  };
}

abbrev password : Str
password = bytes "correct horse"

login_after_register_example :
    let w' = (register service no_faults draw (bytes "a@b") password empty).1 in
    (u : User) × (profile_of u ≡ first_tokens.profile)
    × (login service no_faults later (bytes "a@b") password w'
        ≡ issue_tokens service false later u w')
unfolding register is_empty toy_get lookup issue toy_sign str_eq
login_after_register_example =
    login_after_register service no_faults draw later (bytes "a@b") (bytes "a@b") password empty
      first_tokens toy_db-DbLaws toy_library-LibraryLaws refl refl

nothing_stored : IsReadable service []
unfolding toy_get lookup
nothing_stored id raw h = cc

-- Two customers' sessions are open.
abbrev open_sessions : Stores (Assoc Str) (Assoc Timed)
open_sessions = record {
  accounts = [];
  sessions = (bytes "session:refresh:first", (bytes "cust-1", 2_000_000_000_000)) ∷ [];
}

keys_differ : (bytes "session:refresh:second") ≢ (bytes "session:refresh:first")
keys_differ h = cc

refresh_single_use_example :
    let w' = (refresh service no_faults later (bytes "first") open_sessions).1 in
    (refresh service no_faults later (bytes "first") w').0 ≡ err (errorf 401)
unfolding is_empty
refresh_single_use_example =
    refresh_single_use service no_faults no_faults later later (bytes "first") open_sessions
      toy_redis-RedisLaws refl refl refl keys_differ

abbrev signed_out : Stores (Assoc Str) (Assoc Timed)
signed_out =
    (logout service no_faults 1_200_000_000_000 (bytes "sess-1") (bytes "first") open_sessions).1

abbrev strict : Verifier
strict = record verifier {
  revoked = some (revocation_check toy_redis false 1_300_000_000_000 signed_out.sessions);
}

logout_is_final_example : verify toy 1_300_000_000_000 strict token ≡ none
unfolding issue toy_sign str_eq is_empty
logout_is_final_example =
    logout_is_final service no_faults 1_000_000_000_000 1_200_000_000_000 1_300_000_000_000 strict
      (bytes "cust-1") (bytes "a@b") (bytes "sess-1") (bytes "first") token (bytes "customer" ∷ [])
      alice open_sessions toy_redis-RedisLaws toy-JwtLaws refl refl refl (omega arith) (omega arith)
      refl refl refl refl
