-- ===== src/Cache/Toy.antt =====
-- For the tests: Redis as a map of values with the moments at which they expire, and floats that are
-- whole numbers, where the jitter takes half of a lifetime away or nothing.
use quorum_market.Common.{
  ℕ, ◌+◌, ◌*◌, ◌/◌, ◌<◌, Option, none, some, ltb, ltb→lt, leb, zero, suc, Str, bytes, Assoc, lookup,
  insert, delete, lookup-insert, lookup-delete, if◌then◌else◌, arith,
}
use quorum_market.Cache.{Redis, RedisLaws, Spread, Cache}
use quorum_market.Cache.Lifetimes.{LeavesTime}

abbrev alive : ℕ → Option (Str × ℕ) → Option Str
alive at none = none
alive at (some (v, until)) = if leb until at then none else some v

abbrev pub toy_redis : Redis (Assoc (Str × ℕ))
toy_redis = record {
  get = λ at k r. alive at (lookup k r);
  set = λ now k v ttl r. insert k (v, now + ttl) r;
  del = delete;
}

pub toy_redis_laws : RedisLaws toy_redis
toy_redis_laws = record {
  get-set = λ now at ttl k j v r p q. ground (arith, lookup-insert k j (v, now + ttl) r);
  get-del = λ at k j r. ground (arith, lookup-delete k j r);
}

-- Draws are 0 and 1, and the product of a draw with a duration is half of the duration.
abbrev pub toy_spread : Spread ℕ
toy_spread = record {
  is_positive = λ f. ltb 0 f;
  fifth = 1;
  mul = λ a b. a * b;
  of_duration = λ d. d;
  to_duration = λ f. f / 2;
  is_draw = λ u. ltb u 2;
}

abbrev pub toy_cache : Cache ℕ
toy_cache = record {
  prefix = bytes "product:";
  ttl = 60_000_000_000;
  negative_ttl = 30_000_000_000;
  jitter = 1;
}

half_below : (u ttl : ℕ) → u < 2 → 0 < ttl → u * (ttl * 1) / 2 < ttl
half_below zero ttl p q = omega (arith, q)
half_below (suc zero) ttl p q = omega (arith, q)
half_below (suc (suc u)) ttl p q = absurd (omega (arith, p))

pub toy_cache-LeavesTime : LeavesTime toy_spread toy_cache
toy_cache-LeavesTime = record {
  ttl_positive = omega arith;
  negative_ttl_positive = omega arith;
  jitter_below = λ u ttl p q. half_below u ttl (ltb→lt u 2 p) q;
}
