-- ===== src/Auth/Validity.antt =====
-- How long the tokens of internal/auth/auth.go are valid.
use quorum_market.Common.{
  ℕ, ◌+◌, ◌≡◌, ◌≤◌, sym, ap, subst, ◌∙◌, false, none, some, List, Str, is_empty, arith, ltb, ltb→lt,
  Bool-cases, Option-cases, inl, inr, if◌then◌else◌,
}
use quorum_market.Httpx.Errors.{Result, ok}
use quorum_market.Auth.{
  Claims, nanos, numeric_date, Jwt, JwtLaws, Signer, Verifier, claims_of, issue, verify,
  unless_revoked,
}

issued : (x y : Str × Claims) → Result.ok x ≡ ok y → x ≡ y
issued x y h = cc

-- The token is the library's signature of the claims.
issue-sign :
    (jwt : Jwt) (now : ℕ) (s : Signer) (customer_id email session_id : Str) (roles : List Str)
    (token : Str) (c : Claims)
    → issue jwt now s customer_id email roles session_id ≡ ok (token, c)
    → (c ≡ claims_of now s customer_id email roles session_id) × (jwt.sign s.secret c ≡ some token)
unfolding issue
issue-sign jwt now s customer_id email session_id roles token c h =
    let c' = claims_of now s customer_id email roles session_id in
    elim (Option-cases (jwt.sign s.secret c')) [
      | inl failed ↦ absurd (ground (arith, failed, h))
      | inr (t, signed) ↦
          let same = issued (t, c') (token, c) (rw signed at h) in
          let e : c' ≡ c = ap (λ x. x.1) same in
          let e' : t ≡ token = ap (λ x. x.0) same in
          (sym e, subst (λ x. jwt.sign s.secret x ≡ some token) e (rw (← e') signed))
    ]

-- A token that a signer issues is accepted by a verifier of the same secret and issuer, which then
-- answers with the customer and the session it was issued for, from that moment until the second in
-- which its lifetime ends, unless its session has been revoked; from then on it is refused.
pub token_lifetime :
    (jwt : Jwt) (now at : ℕ) (s : Signer) (v : Verifier) (customer_id email session_id : Str)
    (roles : List Str) (token : Str) (c : Claims)
    → JwtLaws jwt
    → issue jwt now s customer_id email roles session_id ≡ ok (token, c)
    → v.secret ≡ s.secret
    → v.issuer ≡ s.issuer
    → is_empty customer_id ≡ false
    → now ≤ at
    → (c.subject ≡ customer_id)
      × (c.id ≡ session_id)
      × (verify jwt at v token ≡ (
          if ltb at (nanos (numeric_date (now + s.ttl))) then unless_revoked c v.revoked else none))
unfolding claims_of verify
token_lifetime jwt now at s v customer_id email session_id roles token c laws h secret issuer known
      later =
    let (e, signed) = issue-sign jwt now s customer_id email session_id roles token c h in
    let iss : c.issuer ≡ v.issuer = ap (λ x. x.issuer) e ∙ sym issuer in
    let nbf : nanos c.not_before ≤ at = rw e (omega arith) in
    let exp : c.expires_at ≡ numeric_date (now + s.ttl) = ap (λ x. x.expires_at) e in
    let sub : c.subject ≡ customer_id = ap (λ x. x.subject) e in
    (
      sub,
      ap (λ x. x.id) e,
      elim (Bool-cases (ltb at (nanos (numeric_date (now + s.ttl))))) [
        | inl early ↦
            let parsed : jwt.parse v.secret v.issuer at token ≡ some c =
              rw (secret, ← iss)
                (laws.parse-sign s.secret c token at signed nbf (rw exp (ltb→lt _ _ early))) in
            ground (arith, parsed, sub, known, early)
        | inr late ↦
            let over : nanos (numeric_date (now + s.ttl)) ≤ at = ground (arith, late) in
            let parsed : jwt.parse v.secret v.issuer at token ≡ none =
              rw (secret, ← iss) (laws.parse_expired s.secret c token at signed (rw exp over)) in
            ground (arith, parsed, late)
      ],
    )
