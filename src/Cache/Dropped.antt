-- ===== src/Cache/Dropped.antt =====
-- A read of a key that internal/cache/cache.go has just dropped.
use quorum_market.Common.{
  ◌≡◌, refl, false, Option, none, some, ◌++◌, Str, str_eq_refl, arith, Bool-cases, inl, inr,
}
use quorum_market.Cache.{
  Redis, RedisLaws, Spread, Cache, Answer, Call, Ending, get_or_load, invalidate, look_up, answered,
  read_cached,
}

module _ {F R : Type 0} (spread : Spread F) (redis : Redis R) (laws : RedisLaws redis) where
  -- It is answered by the loader, unless its caller has hung up.
  pub loads_dropped :
      (cache : Option (Cache F)) (call : Call) (ending : Ending F) (key : Str) (a : Answer) (r : R)
      → call.is_cancelled ≡ false
      → (get_or_load spread redis cache call ending key a
          (invalidate spread redis cache false key r)).0
        ≡ a
  unfolding get_or_load invalidate answered look_up read_cached
  loads_dropped none call ending key a r h = refl
  loads_dropped (some c) call ending key a r h =
      let full = c.prefix ++ key in
      let gone : redis.get call.asked_at full (redis.del full r) ≡ none =
        ground (arith, laws.get-del call.asked_at full full r, str_eq_refl full) in
      elim (Bool-cases call.get_fails) [ inl e ↦ rw (e, h) refl | inr e ↦ rw (e, gone) refl ]
