-- ===== src/RateLimit/Retry.antt =====
-- The requests that internal/ratelimit/ratelimit.go refuses, and when they may be made again.
use quorum_market.Common.{
  ℕ, ◌+◌, ◌-◌, ◌≤◌, ◌<◌, ◌≡◌, refl, true, false, List, [], ◌∷◌, ltb, if◌then◌else◌, length,
  count_mono, Str, Assoc, keep, AllPairs, arith, Bool-cases, inl, inr,
}
use quorum_market.RateLimit.{Bucket, in_window, script, oldest, oldest_from}
use quorum_market.RateLimit.Window.{
  count_values, counts_at, length-keep, Served, Served-Faithful, in_window-recent, in_window-fits,
}

oldest_from-AllPairs :
    (P : ℕ → Type 0) (score : ℕ) (m : Assoc ℕ)
    → P score
    → AllPairs (λ member s. P s) m
    → P (oldest_from score m)
unfolding oldest_from
oldest_from-AllPairs P score [] p h = p
oldest_from-AllPairs P score ((k, other) ∷ m) p h = elim (Bool-cases (ltb other score)) [
  | inl less ↦ rw less (oldest_from-AllPairs P other m h.0 h.1)
  | inr more ↦ rw more (oldest_from-AllPairs P score m p h.1)
]

oldest-AllPairs :
    (P : ℕ → Type 0) (m : Assoc ℕ) → 0 < length m → AllPairs (λ member s. P s) m → P (oldest m)
unfolding oldest
oldest-AllPairs P [] pos h = absurd (omega arith)
oldest-AllPairs P ((k, score) ∷ m) pos h = oldest_from-AllPairs P score m h.0 h.1

-- Not all scores are above the least.
oldest_from-attained :
    (least score : ℕ) (m : Assoc ℕ)
    → oldest_from score m ≡ least
    → (if ltb least score then 1 else 0) + count_values (λ v. ltb least v) m ≤ length m
unfolding oldest_from
oldest_from-attained least score [] e = ground (arith, e)
oldest_from-attained least score ((k, other) ∷ m) e = elim (Bool-cases (ltb other score)) [
  | inl less ↦
      let e' : oldest_from other m ≡ least = rw less at e in
      ground (arith, less, oldest_from-attained least other m e')
  | inr more ↦
      let e' : oldest_from score m ≡ least = rw more at e in
      ground (arith, more, oldest_from-attained least score m e')
]

oldest-attained :
    (least : ℕ) (m : Assoc ℕ)
    → 0 < length m
    → oldest m ≡ least
    → count_values (λ v. ltb least v) m < length m
unfolding oldest
oldest-attained least [] pos e = absurd (omega arith)
oldest-attained least ((k, score) ∷ m) pos e = ground (arith, oldest_from-attained least score m e)

kept_still_count :
    (window now : ℕ) (m : Assoc ℕ)
    → AllPairs (λ member s. now < s + window) (keep (counts_at window now) m)
unfolding keep
kept_still_count window now [] = tt
kept_still_count window now ((k, v) ∷ m) = elim (Bool-cases (counts_at window now v)) [
  | inl kept ↦ rw kept (ground (arith, kept), kept_still_count window now m)
  | inr gone ↦ rw gone (kept_still_count window now m)
]

-- When the least score leaves the window, the set has fewer entries than before.
oldest_leaves :
    (window limit at until : ℕ) (m : Assoc ℕ)
    → 0 < length m
    → length m ≤ limit
    → at ≡ oldest m + window
    → length (in_window window at (record { entries = m; expires_at = until })) < limit
unfolding keep
oldest_leaves window limit at until m pos fits e = elim (Bool-cases (ltb at until)) [
  | inr gone ↦ rw gone (omega arith)
  | inl fresh ↦
      let fewer =
        count_mono (λ (x : Str × ℕ). counts_at window at x.1) (λ x. ltb (oldest m) x.1) m
          (λ x h. ground (arith, h, e)) in
      rw fresh (
        omega (
          arith,
          fewer,
          length-keep (counts_at window at) m,
          oldest-attained (oldest m) m pos refl,
        ))
]

-- A request that is refused is told to wait for at least a millisecond and at most the window, and one
-- that is made when this time has passed, with no other in between, is admitted.
pub retry_is_admitted :
    (window limit last : ℕ) (log : List ℕ) (b : Bucket) (now : ℕ) (member other : Str)
    → Served window limit last log b
    → 0 < limit
    → last ≤ now
    → (script window limit now member b).0.allowed ≡ false
    → let out = script window limit now member b in
      (0 < out.0.retry)
      × (out.0.retry ≤ window)
      × ((script window limit (now + out.0.retry) other out.1).0.allowed ≡ true)
unfolding script
retry_is_admitted window limit last log b now member other r some_limit later h =
    let kept = in_window window now b in
    let f = Served-Faithful window limit last log b r in
    elim (Bool-cases (ltb (length kept) limit)) [
      | inl room ↦ absurd (ground (arith, room, h))
      | inr full ↦
          let pos : 0 < length kept = ground (arith, full) in
          let counted : now < oldest kept + window =
            oldest-AllPairs (λ s. now < s + window) kept pos (kept_still_count window now _) in
          let old : oldest kept ≤ now =
            oldest-AllPairs (λ s. s ≤ now) kept pos (in_window-recent f now later) in
          rw full (
            omega arith,
            omega arith,
            ground (
              arith,
              oldest_leaves window limit (now + (oldest kept + window - now)) (now + window) kept
                  pos (in_window-fits f now later) (omega arith),
            ),
          )
    ]
