-- ===== src/Httpx/Client/Backoff.antt =====
-- The delays between the attempts of internal/httpx/client.go.
use native.Mathlib.Nat.{mul-pos}
use quorum_market.Common.{
  ℕ, zero, suc, ◌+◌, ◌-◌, ◌*◌, ◌%◌, ◌^◌, ◌≤◌, ◌<◌, ◌≡◌, ◌||◌, arith, leb, ltb, ◌==◌, if◌then◌else◌,
}
use quorum_market.Httpx.Client.{Client, ceiling, backoff}

-- `rand.Int64N n` is below `n`, for a positive `n`.
abbrev pub DrawsBelow : (ℕ → ℕ) → Type 0
DrawsBelow draw = (n : ℕ) → 0 < n → draw n < n

ceiling-le-max_delay : (c : Client) (n : ℕ) → ceiling c n ≤ c.max_delay
unfolding ceiling
ceiling-le-max_delay c n = ground arith

pow_positive : (k : ℕ) → 0 < 2 ^ k
pow_positive zero = omega arith
pow_positive (suc k) = omega (arith, pow_positive k)

-- The tests of `ceiling`, on a shifted delay that fits an int64.
at_most_shifted :
    (x top : ℕ)
    → 0 < x
    → x < 2 ^ 63
    → (if leb (2 ^ 63) (x % 2 ^ 64) || (ltb top (x % 2 ^ 64) || x % 2 ^ 64 == 0)
        then top
        else x % 2 ^ 64)
      ≤ x
at_most_shifted x top p q = let e : x % 2 ^ 64 ≡ x = omega arith in rw e (ground arith)

ceiling-le-shifted :
    (c : Client) (n : ℕ)
    → 0 < c.base_delay
    → c.base_delay * 2 ^ (n - 1) < 2 ^ 63
    → ceiling c n ≤ c.base_delay * 2 ^ (n - 1)
unfolding ceiling
ceiling-le-shifted c n positive small =
    at_most_shifted (c.base_delay * 2 ^ (n - 1)) c.max_delay
      (mul-pos positive (pow_positive (n - 1))) small

-- A delay is never above the configured maximum, however many attempts have been made; as long as
-- the doubled base delay is an int64, the delay is below or at it too.
pub backoff_bounds :
    (draw : ℕ → ℕ) (c : Client) (n : ℕ)
    → DrawsBelow draw
    → 0 < c.base_delay
    → c.base_delay * 2 ^ (n - 1) < 2 ^ 63
    → (backoff draw c n ≤ c.max_delay) × (backoff draw c n ≤ c.base_delay * 2 ^ (n - 1))
unfolding backoff
backoff_bounds draw c n below positive small = (
  ground (arith, below (ceiling c n + 1), ceiling-le-max_delay c n),
  omega (arith, below (ceiling c n + 1), ceiling-le-shifted c n positive small),
)
