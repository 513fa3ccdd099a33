-- ===== src/Identity/Service/Access.antt =====
-- internal/identity/identity.go: Login, Refresh, Logout, Profile and the revocation check.
use quorum_market.Common.{
  ℕ, Bool, false, ◌||◌, Option, none, some, if◌then◌else◌, Str, bytes, is_empty,
}
use quorum_market.Httpx.Errors.{Error, errorf, plain, Result, ok, err}
use quorum_market.Identity.Stores.{Redis, User}
use quorum_market.Identity.Credentials.{normalize_email}
use quorum_market.Identity.Service.{
  Profile, profile_of, Tokens, Faults, Draw, Service, Stores, refresh_key, revoked_key, unavailable,
  load_user, lookup_by_email, issue_tokens,
}

module _ {D S : Type 0} (s : Service D S) where
  unfoldable pub login_found :
      Faults → Draw → Str → Stores D S → Result (Option User) → Result Tokens × Stores D S
  unfolding issue_tokens
  login_found f draw password w (err e) = (err e, w)
  login_found f draw password w (ok none) = (err (errorf 401), w)
  login_found f draw password w (ok (some u)) =
      if s.lib.matches u.password_hash password
      then issue_tokens s f.refresh_set draw u w
      else (err (errorf 401), w)

  unfoldable pub login_checked :
      Faults → Draw → Str → Stores D S → Result Str → Result Tokens × Stores D S
  unfolding login_found lookup_by_email
  login_checked f draw password w (err e) = (err (errorf 401), w)
  login_checked f draw password w (ok email) =
      login_found f draw password w (lookup_by_email s f email w.accounts)

  unfoldable pub login : Faults → Draw → Str → Str → Stores D S → Result Tokens × Stores D S
  unfolding login_checked normalize_email
  login f draw email password w =
      login_checked f draw password w (normalize_email s.lib.fold_case email)

  unfoldable pub refresh_loaded :
      Faults → Draw → Stores D S → Result (Option User) → Result Tokens × Stores D S
  unfolding issue_tokens
  refresh_loaded f draw w (err e) = (err e, w)
  refresh_loaded f draw w (ok none) = (err (errorf 401), w)
  refresh_loaded f draw w (ok (some u)) = issue_tokens s f.refresh_set draw u w

  unfoldable pub refresh_taken :
      Faults → Draw → Stores D S → Option Str → Result Tokens × Stores D S
  unfolding refresh_loaded load_user
  refresh_taken f draw w none = (err (errorf 401), w)
  refresh_taken f draw w (some id) = refresh_loaded f draw w (load_user s f.user_get id w.accounts)

  unfoldable pub refresh : Faults → Draw → Str → Stores D S → Result Tokens × Stores D S
  unfolding refresh_taken unavailable
  refresh f draw token w =
      if is_empty token
      then (err (errorf 401), w)
      else if f.refresh_get
      then (err unavailable, w)
      else (let (id, sessions) =
            s.redis.get_del draw.now (refresh_key (s.lib.digest token)) w.sessions in
          refresh_taken f draw (record w { sessions = sessions }) id)

  -- `Logout`; a refresh token that cannot be deleted is only logged.
  forget : Faults → Str → S → S
  forget f token sessions =
      if is_empty token || f.refresh_get
      then sessions
      else s.redis.del (refresh_key (s.lib.digest token)) sessions

  unfoldable pub logout : Faults → ℕ → Str → Str → Stores D S → Option Error × Stores D S
  unfolding forget unavailable
  logout f now session_id token w =
      let sessions = forget f token w.sessions in
      if is_empty session_id
      then (none, record w { sessions = sessions })
      else if f.revoke_set
      then (some unavailable, record w { sessions = sessions })
      else (
        none,
        record w {
          sessions = s.redis.set now (revoked_key session_id) (bytes "1") s.signer.ttl sessions;
        },
      )

  shown : Result (Option User) → Result Profile
  shown (err e) = err e
  shown (ok none) = err (errorf 404)
  shown (ok (some u)) = ok (profile_of u)

  -- `Profile`
  unfoldable pub profile : Faults → Str → Stores D S → Result Profile
  unfolding shown load_user
  profile f customer_id w = shown (load_user s f.user_get customer_id w.accounts)

-- `RevocationCheck`, at a time, where Redis may fail
unfoldable pub revocation_check : {S : Type 0} → Redis S → Bool → ℕ → S → Str → Result Bool
revocation_check redis fails now sessions session_id =
    if is_empty session_id
    then ok false
    else if fails
    then err plain
    else ok (redis.exists now (revoked_key session_id) sessions)
