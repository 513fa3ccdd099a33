-- ===== src/Cache/Recent.antt =====
-- How old an answer of internal/cache/cache.go can be.
use quorum_market.Common.{
  ◌⊎◌, ℕ, ◌+◌, ◌≡◌, ◌≤◌, refl, sym, subst, Bool, true, false, Option, none, some, [], ◌++◌, Str,
  str_eq, str_eq_refl, arith, All, All-map, All-without, Bool-cases, Option-cases, inl, inr,
}
use quorum_market.Cache.{
  Redis, RedisLaws, Spread, Cache, Answer, hit, Call, Ending, look_up, read_cached, invalidate,
  answer_of, tombstone,
}
use quorum_market.Cache.Readers.{
  Load, System, loaded, settle, Step, waits, hits, queries, ends, fails, invalidates, Run, start,
  step,
}
use quorum_market.Cache.Lifetimes.{kept_for, IsPlain, LeavesTime, keep-cached}

-- The database held the answer at a moment from `since` on, at most `patience` and the lifetime of
-- such an answer before `t`.
pub record IsRecent {F : Type 0} (c : Cache F) (past : ℕ → Option Str) (patience since t : ℕ)
    (a : Answer) : Type 0 where
  pub moment : ℕ
  pub is_held : loaded (past moment) ≡ a
  pub not_before : since ≤ moment
  pub not_after : moment ≤ t
  pub age : t ≤ moment + (patience + kept_for c a)

-- An answer that is read from Redis is the one that the cached bytes stand for.
look_up-hit :
    {F R : Type 0} (spread : Spread F) (redis : Redis R) (c : Cache F) (call : Call) (key : Str)
    (r : R) (a : Answer)
    → look_up spread redis c call key r ≡ hit a
    → (v : Str) × (redis.get call.asked_at (c.prefix ++ key) r ≡ some v) × (answer_of v ≡ a)
unfolding look_up read_cached
look_up-hit spread redis c call key r a h =
    elim (Option-cases (redis.get call.asked_at (c.prefix ++ key) r)) [
      | inl gone ↦ absurd (ground (arith, gone, h))
      | inr (v, e) ↦ (v, e, ground (arith, e, h))
    ]

loaded-IsPlain :
    (o : Option Str) → ((v : Str) → o ≡ some v → str_eq v tombstone ≡ false) → IsPlain (loaded o)
unfolding loaded
loaded-IsPlain none h = tt
loaded-IsPlain (some v) h = h v refl

-- No load is in flight, no answer is recorded, and nothing is cached for the key.
pub record IsFresh {F R : Type 0} (redis : Redis R) (c : Cache F) (key : Str) (s : System R)
    : Type 0 where
  pub no_loads : s.loads ≡ []
  pub no_given : s.given ≡ []
  pub uncached : (t : ℕ) → s.now ≤ t → redis.get t (c.prefix ++ key) s.redis ≡ none

module _ {F R : Type 0} (spread : Spread F) (redis : Redis R) (laws : RedisLaws redis) (c : Cache F)
    (leaves : LeavesTime spread c) (key : Str) (past : ℕ → Option Str)
    (readable : (t : ℕ) (v : Str) → past t ≡ some v → str_eq v tombstone ≡ false)
    (patience since : ℕ) where
  settle-cached :
      (w : Ending F) (l : Load) (r : R) (t : ℕ) (v : Str)
      → w.ended_at ≤ t
      → spread.is_draw w.draw ≡ true
      → redis.get t (c.prefix ++ key) (settle spread redis c key w l (loaded (past l.read_at)) r)
        ≡ some v
      → (redis.get t (c.prefix ++ key) r ≡ some v)
        ⊎ ((answer_of v ≡ loaded (past l.read_at))
            × (t ≤ w.ended_at + kept_for c (loaded (past l.read_at))))
  unfolding settle
  settle-cached w l r t v p q h = elim (Bool-cases l.is_kept) [
    | inl kept ↦
        let plain = loaded-IsPlain (past l.read_at) (readable l.read_at) in
        keep-cached spread redis laws c leaves w (c.prefix ++ key) (loaded (past l.read_at)) r t v p
          q plain (ground (arith, kept, h))
    | inr dropped ↦ inl (ground (arith, dropped, h))
  ]

  invalidate-cached :
      (is_refused : Bool) (r : R) (t : ℕ) (v : Str)
      → redis.get t (c.prefix ++ key) (invalidate spread redis (some c) is_refused key r) ≡ some v
      → redis.get t (c.prefix ++ key) r ≡ some v
  unfolding invalidate
  invalidate-cached true r t v h = h
  invalidate-cached false r t v h = absurd (
      ground (
        arith,
        laws.get-del t (c.prefix ++ key) (c.prefix ++ key) r,
        str_eq_refl (c.prefix ++ key),
        h,
      ))

  pub record IsGood (s : System R) : Type 0 where
    pub cached :
        (t : ℕ) (v : Str)
        → s.now ≤ t
        → redis.get t (c.prefix ++ key) s.redis ≡ some v
        → IsRecent c past patience since t (answer_of v)
    pub begun : All (λ l. (since ≤ l.read_at) × (l.read_at ≤ s.now)) s.loads
    pub recent : All (λ g. IsRecent c past patience since g.at g.answer) s.given
    pub late : since ≤ s.now

  Step-IsGood : {s t : System R} → Step spread redis c key past patience s t → IsGood s → IsGood t
  Step-IsGood (waits s later p) good = record {
    cached = λ t v q h. good.cached t v (omega (arith, p, q)) h;
    begun = All-map _ _ s.loads (λ l h. (h.0, omega (arith, h.1, p))) good.begun;
    recent = good.recent;
    late = omega (arith, good.late, p);
  }
  Step-IsGood (hits s call a e h) good =
      let (v, read, same) = look_up-hit spread redis c call key s.redis a h in
      record {
        cached = good.cached;
        begun = good.begun;
        recent = (
          subst (IsRecent c past patience since s.now) same (
              good.cached s.now v (omega arith)
                (subst (λ x. redis.get x (c.prefix ++ key) s.redis ≡ some v) e read)),
          good.recent,
        );
        late = good.late;
      }
  Step-IsGood (queries s is_kept) good = record {
    cached = good.cached;
    begun = ((good.late, omega arith), good.begun);
    recent = good.recent;
    late = good.late;
  }
  Step-IsGood (ends now r a b l given w at draw soon) good =
      let (begun, others) = All-without _ a l b good.begun in
      let a' = loaded (past l.read_at) in
      record {
        cached = λ t v q h. elim (settle-cached w l r t v (subst (λ x. x ≤ t) (sym at) q) draw h) [
          | inl old ↦ good.cached t v q old
          | inr fresh ↦ record {
            moment = l.read_at;
            is_held = sym fresh.0;
            not_before = begun.0;
            not_after = omega (arith, begun.1, q);
            age =
                subst (λ x. t ≤ l.read_at + (patience + kept_for c x)) (sym fresh.0)
                  (omega (arith, fresh.1, at, soon));
          }
        ];
        begun = others;
        recent = (
          record {
            moment = l.read_at;
            is_held = refl;
            not_before = begun.0;
            not_after = begun.1;
            age = omega (arith, soon);
          },
          good.recent,
        );
        late = good.late;
      }
  Step-IsGood (fails now r a b l given) good = record {
    cached = good.cached;
    begun = (All-without _ a l b good.begun).1;
    recent = good.recent;
    late = good.late;
  }
  Step-IsGood (invalidates s is_refused) good = record {
    cached = λ t v q h. good.cached t v q (invalidate-cached is_refused s.redis t v h);
    begun = good.begun;
    recent = good.recent;
    late = good.late;
  }

  pub Run-IsGood : {s t : System R} → Run spread redis c key past patience s t → IsGood s → IsGood t
  Run-IsGood start good = good
  Run-IsGood (step run last) good = Step-IsGood last (Run-IsGood run good)

  pub IsFresh-IsGood : (s : System R) → IsFresh redis c key s → s.now ≡ since → IsGood s
  IsFresh-IsGood s fresh e = record {
    cached = λ t v q h. absurd (ground (arith, fresh.uncached t q, h));
    begun = subst (All _) (sym fresh.no_loads) tt;
    recent = subst (All _) (sym fresh.no_given) tt;
    late = omega (arith, e);
  }
