-- ===== src/Cache/Answers.antt =====
-- What the callers of internal/cache/cache.go can rely on.
use quorum_market.Common.{
  ℕ, ◌≡◌, refl, false, Option, some, [], ◌++◌, Str, str_eq, str_eq_refl, arith, All,
}
use quorum_market.Cache.{Redis, RedisLaws, Spread, Cache, invalidate, tombstone}
use quorum_market.Cache.Readers.{System, Run}
use quorum_market.Cache.Lifetimes.{LeavesTime}
use quorum_market.Cache.Recent.{IsRecent, IsFresh, IsFresh-IsGood, Run-IsGood}

module _ {F R : Type 0} (spread : Spread F) (redis : Redis R) (laws : RedisLaws redis) (c : Cache F)
    (leaves : LeavesTime spread c) (key : Str) (past : ℕ → Option Str)
    (readable : (t : ℕ) (v : Str) → past t ≡ some v → str_eq v tombstone ≡ false)
    (patience : ℕ) where
  -- However the callers of a key, its invalidations and failures are interleaved: from a state without
  -- loads, answers or a cached value, every answer is what the database held at a moment after that
  -- state, at most the time that a load takes plus the lifetime of such an answer (`ttl` for a value,
  -- `negative_ttl` for an absence) before it is given. The lifetimes are positive, the jitter takes less
  -- than all of one, and no value of the database is the tombstone.
  pub answers_not_stale :
      (s t : System R)
      → IsFresh redis c key s
      → Run spread redis c key past patience s t
      → All (λ g. IsRecent c past patience s.now g.at g.answer) t.given
  answers_not_stale s t fresh run =
      let good =
        IsFresh-IsGood spread redis laws c leaves key past readable patience s.now s fresh refl in
      (Run-IsGood spread redis laws c leaves key past readable patience s.now run good).recent

  -- If no load of a key is in flight when an invalidation that Redis accepts happens, every answer from
  -- then on, recorded from that state on, is what the database held at that moment or later, at most
  -- the time that a load takes plus the lifetime of such an answer before it is given. The lifetimes
  -- are positive, the jitter takes less than all of one, and no value of the database is the tombstone.
  pub invalidated_reads_are_fresh :
      (s t : System R)
      → s.loads ≡ []
      → s.given ≡ []
      → Run spread redis c key past patience
          (record s { redis = invalidate spread redis (some c) false key s.redis })
          t
      → All (λ g. IsRecent c past patience s.now g.at g.answer) t.given
  unfolding invalidate
  invalidated_reads_are_fresh s t idle silent run =
      let full = c.prefix ++ key in
      answers_not_stale (record s { redis = redis.del full s.redis }) t
        (record {
          no_loads = idle;
          no_given = silent;
          uncached = λ at p. ground (arith, laws.get-del at full full s.redis, str_eq_refl full);
        })
        run
