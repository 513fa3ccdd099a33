-- ===== src/Cache.antt =====
-- internal/cache/cache.go: the read-through cache. Redis and the floats of the jitter are parameters;
-- times are in nanoseconds. A load that callers share by singleflight is one load with one answer.
pub mod Readers
pub mod Lifetimes
pub mod Recent
pub mod Answers
pub mod Dropped
pub mod Toy
mod Tests
use quorum_market.Common.{
  ℕ, zero, suc, ◌+◌, ◌-◌, ◌*◌, ◌≡◌, ◌≤◌, ◌<◌, Bool, true, false, Option, none, some, ◌∷◌, ◌++◌,
  bytes, ℤ, pos, negsuc, ltb, leb, if◌then◌else◌, Str, str_eq, is_empty,
}
use quorum_market.Httpx.Errors.{Error, plain}

-- `GET`, `SET` with a lifetime and `DEL`, where the first two happen at a time.
pub record Redis (R : Type 0) : Type 0 where
  pub get : ℕ → Str → R → Option Str
  pub set : ℕ → Str → Str → ℕ → R → R
  pub del : Str → R → R

-- A value that is set with a lifetime is there until this ends, and other keys stay as they are.
pub record RedisLaws {R : Type 0} (redis : Redis R) : Type 0 where
  pub get-set :
      (now at ttl : ℕ) (k j v : Str) (r : R)
      → now ≤ at
      → 0 < ttl
      → redis.get at j (redis.set now k v ttl r)
        ≡ (if str_eq k j then if leb (now + ttl) at then none else some v else redis.get at j r)
  pub get-del :
      (at : ℕ) (k j : Str) (r : R)
      → redis.get at j (redis.del k r) ≡ (if str_eq k j then none else redis.get at j r)

-- float64 and the conversions of a duration, with the values that rand.Float64 draws.
pub record Spread (F : Type 0) : Type 0 where
  pub is_positive : F → Bool
  pub fifth : F
  pub mul : F → F → F
  pub of_duration : ℕ → F
  pub to_duration : F → ℕ
  pub is_draw : F → Bool

-- `Options`, but for the name that labels the metrics
pub record Options (F : Type 0) : Type 0 where
  pub prefix : Str
  pub ttl : ℤ
  pub negative_ttl : ℤ
  pub jitter : F

-- The options in use.
pub record Cache (F : Type 0) : Type 0 where
  pub prefix : Str
  pub ttl : ℕ
  pub negative_ttl : ℕ
  pub jitter : F

-- What `GetOrLoad` returns: bytes, `ErrNotFound` or another error. A loader returns the same.
pub data Answer : Type 0 where
  found : Str → Answer
  absent : Answer
  broken : Error → Answer

-- What Redis says of a key: an answer, that the key is not there, an error of a caller that has hung
-- up, or another error.
pub data Reading : Type 0 where
  hit : Answer → Reading
  miss abandoned down : Reading

abbrev pub tombstone : Str
tombstone = 0 ∷ bytes "__absent__"

-- The moment at which a caller asks, whether Redis fails then, and whether the caller has hung up.
pub record Call : Type 0 where
  pub asked_at : ℕ
  pub get_fails : Bool
  pub is_cancelled : Bool

-- The moment at which a load ends, whether Redis refuses its answer, and the number it draws.
pub record Ending (F : Type 0) : Type 0 where
  pub ended_at : ℕ
  pub set_fails : Bool
  pub draw : F

-- The answer that cached bytes stand for.
unfoldable pub answer_of : Str → Answer
answer_of v = if str_eq v tombstone then absent else found v

abbrev pub positive_or : ℕ → ℤ → ℕ
positive_or default (pos zero) = default
positive_or default (pos (suc n)) = suc n
positive_or default (negsuc n) = default

read_cached : Option Str → Reading
unfolding answer_of
read_cached none = miss
read_cached (some v) = hit (answer_of v)

module _ {F : Type 0} (spread : Spread F) where
  -- `New` with `withDefaults`
  unfoldable pub new : Options F → Cache F
  new o = record {
    prefix = o.prefix;
    ttl = positive_or 300_000_000_000 o.ttl;
    negative_ttl = positive_or 30_000_000_000 o.negative_ttl;
    jitter = if spread.is_positive o.jitter then o.jitter else spread.fifth;
  }

  -- `jitter`, whose difference is not below zero where the fraction is at most one
  unfoldable pub jittered : Cache F → F → ℕ → ℕ
  jittered c u ttl =
      ttl - spread.to_duration (spread.mul u (spread.mul (spread.of_duration ttl) c.jitter))

module _ {F R : Type 0} (spread : Spread F) (redis : Redis R) where
  -- `store`
  unfoldable pub store : Cache F → Ending F → Str → Str → ℕ → R → R
  unfolding jittered
  store c w full v ttl r =
      if w.set_fails then r else redis.set w.ended_at full v (jittered spread c w.draw ttl) r

  -- What a load leaves in Redis.
  unfoldable pub keep : Cache F → Ending F → Str → Answer → R → R
  unfolding store
  keep c w full (found v) r = store c w full v c.ttl r
  keep c w full absent r = store c w full tombstone c.negative_ttl r
  keep c w full (broken e) r = r

  unfoldable pub look_up : Cache F → Call → Str → R → Reading
  unfolding read_cached
  look_up c w key r =
      if w.get_fails
      then if w.is_cancelled then abandoned else down
      else read_cached (redis.get w.asked_at (c.prefix ++ key) r)

  answered : Cache F → Ending F → Str → Answer → Reading → R → Answer × R
  unfolding keep
  answered c w full loaded (hit a) r = (a, r)
  answered c w full loaded miss r = (loaded, keep c w full loaded r)
  answered c w full loaded abandoned r = (broken plain, r)
  answered c w full loaded down r = (loaded, r)

  -- `GetOrLoad`; without a cache every call loads.
  unfoldable pub get_or_load : Option (Cache F) → Call → Ending F → Str → Answer → R → Answer × R
  unfolding answered look_up
  get_or_load none call ending key loaded r = (loaded, r)
  get_or_load (some c) call ending key loaded r =
      answered c ending (c.prefix ++ key) loaded (look_up c call key r) r

  -- `Invalidate`, whose error is only logged
  unfoldable pub invalidate : Option (Cache F) → Bool → Str → R → R
  invalidate none fails key r = r
  invalidate (some c) fails key r = if fails then r else redis.del (c.prefix ++ key) r
