-- ===== src/Cache/Tests.antt =====
-- internal/cache/cache.go on concrete inputs.
use Prim.Native.Nat.{compare, Ordering}
use quorum_market.Common.{
  pos, ℕ, ◌≡◌, refl, arith, Option, some, none, [], ◌∷◌, Str, str_eq, bytes, true, false, Assoc,
  All, lookup, insert, delete,
}
use quorum_market.Cache.{
  found, absent, read_cached, tombstone, Ending, answer_of, look_up, keep, store, jittered, new,
  invalidate,
}
use quorum_market.Cache.Readers.{
  System, Run, start, step, waits, hits, queries, ends, settle, loaded,
}
use quorum_market.Cache.Recent.{IsRecent}
use quorum_market.Cache.Answers.{answers_not_stale, invalidated_reads_are_fresh}
use quorum_market.Cache.Toy.{toy_redis, toy_redis_laws, toy_spread, toy_cache, toy_cache-LeavesTime}

abbrev tea_json : Str
tea_json = bytes "{}"

-- The database changes at 15, while a load is in flight.
abbrev versions : ℕ → Option Str
versions t = elim (compare t 15) [ Ordering.lt ↦ none | _ ↦ some tea_json ]

versions_readable :
    (t : ℕ) (v : Str) → versions t ≡ some v → str_eq v (0 ∷ bytes "__absent__") ≡ false
unfolding str_eq
versions_readable t v h = ground (arith, h)

abbrev first_state : System (Assoc (Str × ℕ))
first_state = record { now = 10; redis = []; loads = []; given = [] }

abbrev ending : Ending ℕ
ending = record { ended_at = 20; set_fails = false; draw = 1 }

-- A load begins at 10 and ends at 20, and at 30 its answer is read from Redis.
abbrev kept_state : System (Assoc (Str × ℕ))
kept_state = record {
  now = 30;
  redis = insert (bytes "product:tea") (0 ∷ bytes "__absent__", 15_000_000_020) [];
  loads = [];
  given = record { at = 20; answer = absent } ∷ [];
}

abbrev last_state : System (Assoc (Str × ℕ))
last_state = record kept_state { given = record { at = 30; answer = absent } ∷ kept_state.given }

reading : Run toy_spread toy_redis toy_cache (bytes "tea") versions 10 first_state last_state
unfolding settle keep store jittered loaded look_up answer_of read_cached lookup insert str_eq
reading =
    step
      (step
        (step (step (step start (queries _ true)) (waits _ 20 (omega arith))) (
          ends 20 [] [] [] (record { read_at = 10; is_kept = true }) [] ending refl refl
            (omega arith)))
        (waits _ 30 (omega arith)))
      (hits kept_state (record { asked_at = 30; get_fails = false; is_cancelled = false }) absent
        refl refl)

answers_not_stale_example :
    All (λ g. IsRecent toy_cache versions 10 10 g.at g.answer) last_state.given
unfolding lookup
answers_not_stale_example =
    answers_not_stale toy_spread toy_redis toy_redis_laws toy_cache toy_cache-LeavesTime
      (bytes "tea") versions versions_readable 10 first_state last_state
      (record { no_loads = refl; no_given = refl; uncached = λ t p. refl }) reading

-- After the absence has been dropped, a load finds what the database holds from 15 on.
abbrev dropped_state : System (Assoc (Str × ℕ))
dropped_state = record {
  now = 30;
  redis = insert (bytes "product:tea") (tombstone, 15_000_000_020) [];
  loads = [];
  given = [];
}

abbrev reread_state : System (Assoc (Str × ℕ))
reread_state = record {
  now = 30;
  redis = insert (bytes "product:tea") (tea_json, 30_000_000_030) [];
  loads = [];
  given = record { at = 30; answer = found tea_json } ∷ [];
}

rereading :
    Run toy_spread toy_redis toy_cache
      (bytes "tea")
      versions
      10
      (record dropped_state {
        redis =
            invalidate toy_spread toy_redis
              (some toy_cache)
              false
              (bytes "tea")
              dropped_state.redis;
      })
      reread_state
unfolding invalidate settle keep store jittered loaded lookup insert delete str_eq
rereading = step (step start (queries _ true)) (
    ends 30 [] [] [] (record { read_at = 30; is_kept = true }) []
      (record { ended_at = 30; set_fails = false; draw = 1 }) refl refl (omega arith))

invalidated_reads_are_fresh_example :
    All (λ g. IsRecent toy_cache versions 10 30 g.at g.answer) reread_state.given
invalidated_reads_are_fresh_example =
    invalidated_reads_are_fresh toy_spread toy_redis toy_redis_laws toy_cache toy_cache-LeavesTime
      (bytes "tea") versions versions_readable 10 dropped_state reread_state refl refl rereading

toy_cache_is_new :
    new toy_spread (record {
      prefix = bytes "product:";
      ttl = pos 60_000_000_000;
      negative_ttl = pos 0;
      jitter = 0;
    })
    ≡ toy_cache
unfolding new
toy_cache_is_new = refl
