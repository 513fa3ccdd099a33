-- ===== src/Identity/Service/Sessions.antt =====
-- The sessions of internal/identity/identity.go: refresh tokens and logouts.
use quorum_market.Common.{
  ℕ, ◌+◌, ◌≡◌, ◌≢◌, ◌≤◌, ◌<◌, refl, ap, ◌∙◌, inl, inr, Bool, true, false, Option, none, some, List,
  arith, Str, is_empty, Bool-cases, ltb,
}
use quorum_market.Httpx.Errors.{errorf, ok, err, Result-cases}
use quorum_market.Auth.{
  Claims, JwtLaws, Verifier, issue, verify, unless_revoked, nanos, numeric_date,
}
use quorum_market.Auth.Validity.{token_lifetime}
use quorum_market.Identity.Stores.{RedisLaws, User}
use quorum_market.Identity.Service.{
  Service, Stores, Draw, Faults, issue_tokens, load_user, refresh_key, new_session_id,
}
use quorum_market.Identity.Service.Access.{
  refresh, refresh_taken, refresh_loaded, logout, revocation_check,
}

module _ {D S : Type 0} (s : Service D S) where
  -- Issuing tokens adds nothing under another refresh token's key.
  issue_tokens_spares :
      (laws : RedisLaws s.redis) (fails : Bool) (draw : Draw) (u : User) (w : Stores D S) (k : Str)
      (at : ℕ)
      → refresh_key (s.lib.digest draw.refresh) ≢ k
      → (s.redis.get_del at k w.sessions).0 ≡ none
      → (s.redis.get_del at k (issue_tokens s fails draw u w).1.sessions).0 ≡ none
  unfolding issue_tokens
  issue_tokens_spares laws fails draw u w k at other gone =
      elim (Result-cases (
        issue s.jwt draw.now s.signer u.customer_id u.email u.roles
          (new_session_id draw.session))) [
            | inr (e, bad) ↦ rw bad gone
            | inl (out, good) ↦ elim (Bool-cases fails) [
              | inl down ↦ rw (good, down) gone
              | inr up ↦ rw (good, up) (laws.get_del-set_other _ _ _ _ _ _ _ other ∙ gone)
            ]
          ]

  -- Once a refresh token's key is taken out of Redis it stays out.
  refresh_taken_spares :
      (laws : RedisLaws s.redis) (f : Faults) (draw : Draw) (w : Stores D S) (id : Option Str)
      (k : Str) (at : ℕ)
      → refresh_key (s.lib.digest draw.refresh) ≢ k
      → (s.redis.get_del at k w.sessions).0 ≡ none
      → (s.redis.get_del at k (refresh_taken s f draw w id).1.sessions).0 ≡ none
  unfolding refresh_taken refresh_loaded
  refresh_taken_spares laws f draw w none k at other gone = gone
  refresh_taken_spares laws f draw w (some id) k at other gone =
      elim (Result-cases (load_user s f.user_get id w.accounts)) [
        | inr (e, down) ↦ rw down gone
        | inl (none, unknown) ↦ rw unknown gone
        | inl (some u, found) ↦
            rw found (issue_tokens_spares laws f.refresh_set draw u w k at other gone)
      ]

  -- A refresh token is good for one use at most: once Redis has answered a refresh with it, whatever
  -- comes of that, another refresh with the same token is denied with 401, provided the new token
  -- that was drawn is not filed under the same key.
  pub refresh_single_use :
      (f again : Faults) (draw later : Draw) (token : Str) (w : Stores D S)
      → RedisLaws s.redis
      → is_empty token ≡ false
      → f.refresh_get ≡ false
      → again.refresh_get ≡ false
      → refresh_key (s.lib.digest draw.refresh) ≢ refresh_key (s.lib.digest token)
      → let w' = (refresh s f draw token w).1 in
        (refresh s again later token w').0 ≡ err (errorf 401)
  unfolding refresh refresh_taken
  refresh_single_use f again draw later token w laws filled up up' other =
      let k = refresh_key (s.lib.digest token) in
      let out = s.redis.get_del draw.now k w.sessions in
      let gone =
        refresh_taken_spares laws f draw (record w { sessions = out.1 }) out.0 k later.now other
          (laws.get_del-get_del draw.now later.now k w.sessions) in
      rw (filled, up, up', gone) refl

  logout_denies :
      (f : Faults) (now at : ℕ) (session_id token : Str) (w : Stores D S)
      → RedisLaws s.redis
      → is_empty session_id ≡ false
      → f.revoke_set ≡ false
      → now ≤ at
      → at < now + s.signer.ttl
      → revocation_check s.redis false at (logout s f now session_id token w).1.sessions session_id
        ≡ ok true
  unfolding logout revocation_check
  logout_denies f now at session_id token w laws named up later early =
      rw (named, up) (ap ok (laws.exists-set now at s.signer.ttl _ _ _ later early))

  -- A logout is immediate and for good: after a logout from its session that reports no failure of
  -- Redis, an access token that the service has issued is refused at every later moment at which the
  -- denylist can be read, by a verifier that consults it.
  pub logout_is_final :
      (f : Faults) (issued now at : ℕ) (v : Verifier)
      (customer_id email session_id token access : Str) (roles : List Str) (c : Claims)
      (w : Stores D S)
      → RedisLaws s.redis
      → JwtLaws s.jwt
      → issue s.jwt issued s.signer customer_id email roles session_id ≡ ok (access, c)
      → is_empty customer_id ≡ false
      → is_empty session_id ≡ false
      → issued ≤ now
      → now ≤ at
      → f.revoke_set ≡ false
      → v.secret ≡ s.signer.secret
      → v.issuer ≡ s.signer.issuer
      → v.revoked
        ≡ some (revocation_check s.redis false at (logout s f now session_id token w).1.sessions)
      → verify s.jwt at v access ≡ none
  unfolding unless_revoked
  logout_is_final f issued now at v customer_id email session_id token access roles c w laws jwt
        granted known named first later up secret issuer check =
      let ends = nanos (numeric_date (issued + s.signer.ttl)) in
      let (owner, session, answer) =
        token_lifetime s.jwt issued at s.signer v customer_id email session_id roles access c jwt
          granted secret issuer known (omega arith) in
      answer ∙ elim (Bool-cases (ltb at ends)) [
        | inr over ↦ rw over refl
        | inl alive ↦
            let denied =
              logout_denies f now at session_id token w laws named up later
                (ground (arith, alive)) in
            rw (alive, check) (ground (arith, session, named, denied))
      ]
