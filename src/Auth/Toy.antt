-- ===== src/Auth/Toy.antt =====
-- For the tests: a token library that signs the claims of one customer, and what these are.
use quorum_market.Common.{
  ℕ, ◌≡◌, ◌≤◌, ◌<◌, ◌&&◌, refl, Bool, true, false, Option, none, some, List, [], ◌∷◌, Str, bytes,
  arith, ltb, leb, ◌==◌, ==_iff, str_eq, str_eq→eq, if◌then◌else◌, Bool-cases, inl, inr,
}
use quorum_market.Auth.{Claims, Jwt, JwtLaws, Signer, Verifier, nanos}

abbrev pub signer : Signer
signer = record { secret = bytes "a secret"; issuer = bytes "identity"; ttl = 900_000_000_000 }

abbrev pub verifier : Verifier
verifier = record { secret = bytes "a secret"; issuer = bytes "identity"; revoked = none }

-- The claims of the token that is signed.
abbrev pub alice : Claims
alice = record {
  subject = bytes "cust-1";
  issuer = bytes "identity";
  issued_at = 1000;
  not_before = 1000;
  expires_at = 1900;
  id = bytes "sess-1";
  email = bytes "a@b";
  roles = bytes "customer" ∷ [];
}

abbrev is_customer : List Str → Bool
is_customer [] = false
is_customer (role ∷ []) = str_eq role (bytes "customer")
is_customer (role ∷ (next ∷ roles)) = false

is_customer→eq : (roles : List Str) → is_customer roles ≡ true → roles ≡ (bytes "customer" ∷ [])
is_customer→eq [] h = cc
is_customer→eq (role ∷ []) h = let e = str_eq→eq role (bytes "customer") h in λ i. e i ∷ []
is_customer→eq (role ∷ (next ∷ roles)) h = cc

is_alice : Claims → Bool
is_alice c =
    str_eq c.subject alice.subject
    && (str_eq c.issuer alice.issuer
        && (c.issued_at == 1000
            && (c.not_before == 1000
                && (c.expires_at == 1900
                    && (str_eq c.id alice.id
                        && (str_eq c.email alice.email && is_customer c.roles))))))

both : (a b : Bool) → (a && b) ≡ true → (a ≡ true) × (b ≡ true)
both true b h = (refl, h)
both false b h = cc

is_alice→eq : (c : Claims) → is_alice c ≡ true → c ≡ alice
unfolding is_alice
is_alice→eq c h =
    let (p, h1) = both _ _ h in
    let (q, h2) = both _ _ h1 in
    let (r, h3) = both _ _ h2 in
    let (s, h4) = both _ _ h3 in
    let (t, h5) = both _ _ h4 in
    let (u, h6) = both _ _ h5 in
    let (v, w) = both _ _ h6 in
    let subject = str_eq→eq _ _ p in
    let issuer = str_eq→eq _ _ q in
    let issued = (==_iff c.issued_at 1000).0 r in
    let before = (==_iff c.not_before 1000).0 s in
    let expires = (==_iff c.expires_at 1900).0 t in
    let id = str_eq→eq _ _ u in
    let email = str_eq→eq _ _ v in
    let roles = is_customer→eq c.roles w in
    λ i. record {
      subject = subject i;
      issuer = issuer i;
      issued_at = issued i;
      not_before = before i;
      expires_at = expires i;
      id = id i;
      email = email i;
      roles = roles i;
    }

abbrev pub token : Str
token = bytes "token-1"

unfoldable pub toy_sign : Str → Claims → Option Str
unfolding is_alice
toy_sign secret c = if is_alice c then some token else none

unfoldable pub toy_parse : Str → Str → ℕ → Str → Option Claims
toy_parse secret issuer now t =
    if str_eq t token && (leb (nanos 1000) now && ltb now (nanos 1900)) then some alice else none

abbrev pub toy : Jwt
toy = record { sign = toy_sign; parse = toy_parse }

sign-toy : (secret t : Str) (c : Claims) → toy_sign secret c ≡ some t → (c ≡ alice) × (t ≡ token)
unfolding toy_sign
sign-toy secret t c h = elim (Bool-cases (is_alice c)) [
  | inl hers ↦
      let same : some token ≡ some t = rw hers at h in
      (is_alice→eq c hers, let e : t ≡ token = cc in e)
  | inr other ↦ absurd (ground (arith, other, h))
]

pub toy-JwtLaws : JwtLaws toy
unfolding toy_parse str_eq
toy-JwtLaws = record {
  parse-sign = λ secret c t now signed after before.
      let (hers, tok) = sign-toy secret t c signed in
      let after' : nanos 1000 ≤ now = rw hers at after in
      let before' : now < nanos 1900 = rw hers at before in
      rw (tok, hers) (ground (arith, after', before'));
  parse_expired = λ secret c t now signed late.
      let (hers, tok) = sign-toy secret t c signed in
      let late' : nanos 1900 ≤ now = rw hers at late in rw tok (ground (arith, late'));
}
