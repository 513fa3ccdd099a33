-- ===== src/Httpx/Breaker/Probes.antt =====
-- `Allow` of internal/httpx/breaker.go on a breaker that is not closed.
use quorum_market.Common.{
  ℕ, ◌+◌, leb, if◌then◌else◌, ◌≡◌, ◌≢◌, true, false, arith, pos_part, if◌then◌else◌,
}
use quorum_market.Httpx.Breaker.{Breaker, closed, opened, allow}

-- A breaker that is not closed and lets a call through lets no other through before an outcome is
-- recorded, whatever the time.
pub one_probe_until_outcome :
    (now later : ℕ) (b : Breaker)
    → b.state ≢ closed
    → (allow now b).0 ≡ true
    → allow later (allow now b).1 ≡ (false, (allow now b).1)
unfolding allow
one_probe_until_outcome now later b not_closed passed = ground arith

-- From a failure that opens it until `OpenFor` has passed an open breaker refuses every call and
-- does not change; the first call after that is let through.
pub open_refuses_exactly :
    (now : ℕ) (b : Breaker)
    → b.state ≡ opened
    → ((allow now b).0 ≡ leb (b.opened_at + pos_part b.cfg.open_for) now)
      × ((if (allow now b).0 then b else (allow now b).1) ≡ b)
unfolding allow
open_refuses_exactly now b is_open = (ground arith, ground arith)
