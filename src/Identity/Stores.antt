-- ===== src/Identity/Stores.antt =====
-- The interfaces that internal/identity/identity.go uses: the key-value cluster, Redis, bcrypt, JSON
-- and SHA-256, with what it relies on. Times are in nanoseconds.
use quorum_market.Common.{ℕ, ◌+◌, ◌≡◌, ◌≢◌, ◌≤◌, ◌<◌, Bool, true, Option, none, some, List, Str}

-- `GET` and `PUT` of a string; `none` is a key that is not found.
pub record Db (D : Type 0) : Type 0 where
  pub get : Str → D → Option Str
  pub put : Str → Str → D → D

pub record DbLaws {D : Type 0} (db : Db D) : Type 0 where
  pub get-put : (k v : Str) (d : D) → db.get k (db.put k v d) ≡ some v
  pub get-put_other : (k j v : Str) (d : D) → k ≢ j → db.get j (db.put k v d) ≡ db.get j d

-- `SET` with a lifetime, `GETDEL`, `DEL` and `EXISTS`, at a time.
pub record Redis (S : Type 0) : Type 0 where
  pub set : ℕ → Str → Str → ℕ → S → S
  pub get_del : ℕ → Str → S → Option Str × S
  pub del : Str → S → S
  pub exists : ℕ → Str → S → Bool

pub record RedisLaws {S : Type 0} (redis : Redis S) : Type 0 where
  pub get_del-get_del :
      (now later : ℕ) (k : Str) (s : S) → (redis.get_del later k (redis.get_del now k s).1).0 ≡ none
  pub get_del-set_other :
      (now at ttl : ℕ) (k j v : Str) (s : S)
      → k ≢ j
      → (redis.get_del at j (redis.set now k v ttl s)).0 ≡ (redis.get_del at j s).0
  pub exists-set :
      (now at ttl : ℕ) (k v : Str) (s : S)
      → now ≤ at
      → at < now + ttl
      → redis.exists at k (redis.set now k v ttl s) ≡ true

-- `User`
pub record User : Type 0 where
  pub customer_id : Str
  pub email : Str
  pub password_hash : Str
  pub roles : List Str
  pub created_at : ℕ

-- `fold_case` is strings.ToLower of strings.TrimSpace, `hash` is bcrypt.GenerateFromPassword at the
-- service's cost, `matches` is bcrypt.CompareHashAndPassword, and `digest` is SHA-256 in hex.
pub record Library : Type 0 where
  pub fold_case : Str → Str
  pub hash : Str → Option Str
  pub matches : Str → Str → Bool
  pub digest : Str → Str
  pub encode : User → Str
  pub decode : Str → Option User

pub record LibraryLaws (lib : Library) : Type 0 where
  pub matches-hash : (password h : Str) → lib.hash password ≡ some h → lib.matches h password ≡ true
  pub decode-encode : (u : User) → lib.decode (lib.encode u) ≡ some u
