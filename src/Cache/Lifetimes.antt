-- ===== src/Cache/Lifetimes.antt =====
-- How long internal/cache/cache.go keeps the answer of a load.
use quorum_market.Common.{
  ◌⊎◌, ℕ, ◌+◌, ◌≡◌, ◌≤◌, ◌<◌, true, false, some, Str, str_eq, str_eq_refl, arith, inl, inr,
}
use quorum_market.Cache.{
  Redis, RedisLaws, Spread, Cache, Answer, found, absent, broken, Ending, keep, store, jittered,
  answer_of, tombstone,
}

-- How long the cache keeps an answer.
abbrev pub kept_for : {F : Type 0} → Cache F → Answer → ℕ
kept_for c (found v) = c.ttl
kept_for c absent = c.negative_ttl
kept_for c (broken e) = 0

-- The bytes of an answer are not those of the tombstone.
abbrev pub IsPlain : Answer → Type 0
IsPlain (found v) = str_eq v tombstone ≡ false
IsPlain absent = Unit
IsPlain (broken e) = Unit

-- The lifetimes are positive, and the jitter leaves some of each.
pub record LeavesTime {F : Type 0} (spread : Spread F) (c : Cache F) : Type 0 where
  pub ttl_positive : 0 < c.ttl
  pub negative_ttl_positive : 0 < c.negative_ttl
  pub jitter_below :
      (u : F) (ttl : ℕ)
      → spread.is_draw u ≡ true
      → 0 < ttl
      → spread.to_duration (spread.mul u (spread.mul (spread.of_duration ttl) c.jitter)) < ttl

module _ {F R : Type 0} (spread : Spread F) (redis : Redis R) (laws : RedisLaws redis) (c : Cache F)
    (leaves : LeavesTime spread c) where
  store-cached :
      (w : Ending F) (full x : Str) (ttl : ℕ) (r : R) (t : ℕ) (v : Str)
      → w.ended_at ≤ t
      → spread.is_draw w.draw ≡ true
      → 0 < ttl
      → redis.get t full (store spread redis c w full x ttl r) ≡ some v
      → (redis.get t full r ≡ some v) ⊎ ((v ≡ x) × (t ≤ w.ended_at + ttl))
  unfolding store jittered
  store-cached w full x ttl r t v p q positive h =
      let left = leaves.jitter_below w.draw ttl q positive in
      let law =
        laws.get-set w.ended_at t (jittered spread c w.draw ttl) full full x r p
          (omega (arith, left)) in
      ground (arith, law, left, str_eq_refl full, h)

  pub keep-cached :
      (w : Ending F) (full : Str) (a : Answer) (r : R) (t : ℕ) (v : Str)
      → w.ended_at ≤ t
      → spread.is_draw w.draw ≡ true
      → IsPlain a
      → redis.get t full (keep spread redis c w full a r) ≡ some v
      → (redis.get t full r ≡ some v) ⊎ ((answer_of v ≡ a) × (t ≤ w.ended_at + kept_for c a))
  unfolding keep answer_of
  keep-cached w full (found x) r t v p q plain h =
      elim (store-cached w full x c.ttl r t v p q leaves.ttl_positive h) [
        | inl old ↦ inl old
        | inr fresh ↦ inr (ground (arith, fresh.0, plain), fresh.1)
      ]
  keep-cached w full absent r t v p q plain h =
      elim (store-cached w full tombstone c.negative_ttl r t v p q leaves.negative_ttl_positive h) [
        | inl old ↦ inl old
        | inr fresh ↦ inr (ground (arith, fresh.0, str_eq_refl tombstone), fresh.1)
      ]
  keep-cached w full (broken e) r t v p q plain h = inl h
