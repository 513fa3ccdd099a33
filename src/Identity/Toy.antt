-- ===== src/Identity/Toy.antt =====
-- For the tests: stores and a library for internal/identity/identity.go. The stores are association
-- lists, a password is its own hash, and an account is written as its fields behind their lengths.
use quorum_market.Common.{
  ℕ, zero, suc, ◌+◌, ◌≡◌, ◌≢◌, refl, ap, Bool, true, false, Option, none, some, List, [], ◌∷◌, ◌++◌,
  length, Str, arith, ltb, str_eq, str_eq_refl, str_eq→eq, if◌then◌else◌, Assoc, lookup, insert,
  delete, lookup-insert, lookup-delete, Bool-cases, inl, inr,
}
use quorum_market.Identity.Stores.{Db, DbLaws, Redis, RedisLaws, User, Library, LibraryLaws}

unfoldable pub toy_get : Str → Assoc Str → Option Str
toy_get k d = lookup k d

unfoldable pub toy_put : Str → Str → Assoc Str → Assoc Str
toy_put k v d = insert k v d

abbrev pub toy_db : Db (Assoc Str)
toy_db = record { get = toy_get; put = toy_put }

differ : (k j : Str) → k ≢ j → str_eq k j ≡ false
differ k j h = elim (Bool-cases (str_eq k j)) [
  | inl same ↦ absurd (h (str_eq→eq k j same))
  | inr other ↦ other
]

pub toy_db-DbLaws : DbLaws toy_db
unfolding toy_get toy_put
toy_db-DbLaws = record {
  get-put = λ k v d. rw (lookup-insert k k v d, str_eq_refl k) refl;
  get-put_other = λ k j v d h. rw (lookup-insert k j v d, differ k j h) refl;
}

-- A value and the time at which it expires.
abbrev pub Timed : Type 0
Timed = Str × ℕ

abbrev unexpired : ℕ → Option Timed → Option Str
unexpired now none = none
unexpired now (some (v, expiry)) = if ltb now expiry then some v else none

abbrev is_found : Option Str → Bool
is_found none = false
is_found (some v) = true

unfoldable pub toy_set : ℕ → Str → Str → ℕ → Assoc Timed → Assoc Timed
toy_set now k v ttl s = insert k (v, now + ttl) s

unfoldable pub toy_get_del : ℕ → Str → Assoc Timed → Option Str × Assoc Timed
toy_get_del now k s = (unexpired now (lookup k s), delete k s)

unfoldable pub toy_exists : ℕ → Str → Assoc Timed → Bool
toy_exists now k s = is_found (unexpired now (lookup k s))

abbrev pub toy_redis : Redis (Assoc Timed)
toy_redis = record { set = toy_set; get_del = toy_get_del; del = delete; exists = toy_exists }

pub toy_redis-RedisLaws : RedisLaws toy_redis
unfolding toy_set toy_get_del toy_exists
toy_redis-RedisLaws = record {
  get_del-get_del = λ now later k s. rw (lookup-delete k k s, str_eq_refl k) refl;
  get_del-set_other =
      λ now at ttl k j v s h. rw (lookup-insert k j (v, now + ttl) s, differ k j h) refl;
  exists-set = λ now at ttl k v s after before.
      rw (lookup-insert k k (v, now + ttl) s, str_eq_refl k) (ground (arith, before));
}

split_at : ℕ → Str → Str × Str
split_at zero s = ([], s)
split_at (suc n) [] = ([], [])
split_at (suc n) (c ∷ s) = let (a, b) = split_at n s in (c ∷ a, b)

split_at-append : (s t : Str) → split_at (length s) (s ++ t) ≡ (s, t)
unfolding split_at
split_at-append [] t = refl
split_at-append (c ∷ s) t = ap (λ (p : Str × Str). (c ∷ p.0, p.1)) (split_at-append s t)

abbrev frame : Str → Str
frame s = length s ∷ s

unframe : Str → Str × Str
unfolding split_at
unframe [] = ([], [])
unframe (n ∷ s) = split_at n s

unframe-frame : (s t : Str) → unframe (frame s ++ t) ≡ (s, t)
unfolding unframe
unframe-frame s t = split_at-append s t

frames : List Str → Str
frames [] = []
frames (s ∷ ss) = frame s ++ frames ss

unframes : ℕ → Str → List Str
unframes zero s = []
unframes (suc n) s = let (a, rest) = unframe s in a ∷ unframes n rest

unframes-frames : (ss : List Str) → unframes (length ss) (frames ss) ≡ ss
unfolding unframes frames
unframes-frames [] = refl
unframes-frames (s ∷ ss) = rw (unframe-frame s (frames ss)) (ap (λ x. s ∷ x) (unframes-frames ss))

unfoldable pub toy_encode : User → Str
unfolding frames
toy_encode u =
    u.created_at
    ∷ (frame u.customer_id ++ (frame u.email ++ (frame u.password_hash ++ frame_roles u.roles)))
  where
    frame_roles : List Str → Str
    frame_roles roles = length roles ∷ frames roles

decode_roles : Str → List Str
unfolding unframes
decode_roles [] = []
decode_roles (n ∷ s) = unframes n s

unfoldable pub toy_decode : Str → Option User
unfolding unframe decode_roles
toy_decode [] = none
toy_decode (created ∷ s) =
    let (customer_id, s1) = unframe s in
    let (email, s2) = unframe s1 in
    let (password_hash, s3) = unframe s2 in
    some (record {
      customer_id = customer_id;
      email = email;
      password_hash = password_hash;
      roles = decode_roles s3;
      created_at = created;
    })

abbrev pub toy_library : Library
toy_library = record {
  fold_case = λ s. s;
  hash = λ s. some s;
  matches = str_eq;
  digest = λ s. s;
  encode = toy_encode;
  decode = toy_decode;
}

same_hash : (password h : Str) → some password ≡ some h → str_eq h password ≡ true
same_hash password h e = let q : password ≡ h = cc in rw q (str_eq_refl h)

pub toy_library-LibraryLaws : LibraryLaws toy_library
unfolding toy_encode toy_decode unframe decode_roles
toy_library-LibraryLaws = record {
  matches-hash = same_hash;
  decode-encode = λ u.
      let roles = length u.roles ∷ frames u.roles in
      rw
        (
          split_at-append u.customer_id (frame u.email ++ (frame u.password_hash ++ roles)),
          split_at-append u.email (frame u.password_hash ++ roles),
          split_at-append u.password_hash roles,
          unframes-frames u.roles,
        )
        refl;
}
