-- ===== src/RateLimit.antt =====
-- internal/ratelimit/ratelimit.go: the sliding window, whose Lua script runs atomically in Redis, and
-- what Allow makes of its answer. A sorted set is an association list from the members to their scores.
-- Times and windows are in milliseconds where the script has them and in nanoseconds elsewhere.
pub mod Window
pub mod Retry
mod Tests
use quorum_market.Common.{
  ℕ, suc, ◌+◌, ◌-◌, ◌*◌, ◌/◌, Bool, true, false, not, Option, none, some, List, [], ◌∷◌, ℤ, pos,
  pos_part, leb_ℤ, ltb, leb, if◌then◌else◌, length, Str, is_empty, bytes, Assoc, insert, keep,
}

-- A key of Redis that holds a sorted set, and the time at which it expires.
pub record Bucket : Type 0 where
  pub entries : Assoc ℕ
  pub expires_at : ℕ

-- What the script returns.
pub record Reply : Type 0 where
  pub allowed : Bool
  pub remaining : ℕ
  pub retry : ℕ

-- The set of a key that has not expired; a key that is absent reads as an empty set.
abbrev pub stored : ℕ → Bucket → Assoc ℕ
stored now b = if ltb now b.expires_at then b.entries else []

-- `ZREMRANGEBYSCORE key 0 (now - window)`
abbrev pub in_window : ℕ → ℕ → Bucket → Assoc ℕ
in_window window now b = keep (λ score. ltb now (score + window)) (stored now b)

-- `ZRANGE key 0 0 WITHSCORES`: the least score.
abbrev pub lesser : ℕ → ℕ → ℕ
lesser a b = if ltb b a then b else a

unfoldable pub oldest_from : ℕ → Assoc ℕ → ℕ
oldest_from score [] = score
oldest_from score ((member, other) ∷ m) = oldest_from (lesser score other) m

unfoldable pub oldest : Assoc ℕ → ℕ
unfolding oldest_from
oldest [] = 0
oldest ((member, score) ∷ m) = oldest_from score m

unfoldable pub script : ℕ → ℕ → ℕ → Str → Bucket → Reply × Bucket
unfolding oldest
script window limit now member b =
    let kept = in_window window now b in
    if ltb (length kept) limit
    then (
      record { allowed = true; remaining = limit - length kept - 1; retry = 0 },
      record { entries = insert member now kept; expires_at = now + window },
    )
    else (
      record { allowed = false; remaining = 0; retry = oldest kept + window - now },
      record { entries = kept; expires_at = now + window },
    )

pub record Options : Type 0 where
  pub scope : Str
  pub prefix : Str
  pub limit : ℤ
  pub window : ℤ
  pub fail_open : Option Bool

-- The options once `withDefaults` has filled them in.
pub record Limits : Type 0 where
  pub scope : Str
  pub prefix : Str
  pub limit : ℕ
  pub window : ℕ
  pub fail_open : Bool

abbrev option_or_true : Option Bool → Bool
option_or_true none = true
option_or_true (some b) = b

unfoldable pub with_defaults : Options → Limits
with_defaults o = record {
  scope = if is_empty o.scope then bytes "default" else o.scope;
  prefix = o.prefix;
  limit = if leb_ℤ o.limit (pos 0) then 100 else pos_part o.limit;
  window = if leb_ℤ o.window (pos 0) then 60_000_000_000 else pos_part o.window;
  fail_open = option_or_true o.fail_open;
}

pub record Verdict : Type 0 where
  pub allowed : Bool
  pub limit : ℕ
  pub remaining : ℕ
  pub retry_after : ℕ

abbrev pub unlimited : Limits → Verdict
unlimited l = record { allowed = true; limit = l.limit; remaining = l.limit; retry_after = 0 }

-- `parse`, of the three numbers that the script returns
unfoldable pub parse : Reply → ℕ → Verdict
parse reply limit = record {
  allowed = reply.allowed;
  limit = limit;
  remaining = reply.remaining;
  retry_after = reply.retry * 1_000_000;
}

-- `Allow` for one identity: `is_up` tells whether Redis runs the script, at the time `now` of its
-- clock. A limiter without a client admits every request.
unfoldable pub allow : Limits → Bool → Bool → ℕ → Str → Bucket → Verdict × Bucket
unfolding script parse
allow l has_client is_up now member b =
    if not has_client
    then (unlimited l, b)
    else if is_up
    then (let (reply, b') = script (l.window / 1_000_000) l.limit now member b in
        (parse reply l.limit, b'))
    else if l.fail_open
    then (unlimited l, b)
    else (
      record { allowed = false; limit = l.limit; remaining = 0; retry_after = 1_000_000_000 },
      b,
    )
