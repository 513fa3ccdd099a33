-- ===== src/Cache/Readers.antt =====
-- The callers of internal/cache/cache.go that read one key, in any number of processes that share
-- Redis, as a step relation. What the database holds for the key is a function of time.
use quorum_market.Common.{
  ℕ, ◌+◌, ◌≡◌, ◌≤◌, Bool, true, Option, none, some, List, ◌∷◌, ◌++◌, Str, if◌then◌else◌,
}
use quorum_market.Cache.{
  Redis, Spread, Cache, Answer, found, absent, hit, Call, Ending, look_up, keep, invalidate,
}

-- A load in flight: when its query saw the database, and whether its answer is stored.
pub record Load : Type 0 where
  pub read_at : ℕ
  pub is_kept : Bool

-- An answer that callers got, and when.
pub record Given : Type 0 where
  pub at : ℕ
  pub answer : Answer

pub record System (R : Type 0) : Type 0 where
  pub now : ℕ
  pub redis : R
  pub loads : List Load
  pub given : List Given

-- A loader that reports a missing record as `ErrNotFound`.
unfoldable pub loaded : Option Str → Answer
loaded none = absent
loaded (some v) = found v

module _ {F R : Type 0} (spread : Spread F) (redis : Redis R) (c : Cache F) (key : Str) where
  -- What the end of a load does to Redis.
  unfoldable pub settle : Ending F → Load → Answer → R → R
  unfolding keep
  settle w l a r = if l.is_kept then keep spread redis c w (c.prefix ++ key) a r else r

  -- The database holds `past t` at `t`, and a load takes at most `patience` from its query to its end.
  pub data Step (past : ℕ → Option Str) (patience : ℕ) : System R → System R → Type 0 where
    waits :
        (s : System R) (later : ℕ) → s.now ≤ later → Step past patience s (record s { now = later })
    hits :
        (s : System R) (call : Call) (a : Answer)
        → call.asked_at ≡ s.now
        → look_up spread redis c call key s.redis ≡ hit a
        → Step past patience s (record s { given = record { at = s.now; answer = a } ∷ s.given })
    -- A caller whose look-up has missed, however long ago, or has found Redis down, queries the
    -- database.
    queries :
        (s : System R) (is_kept : Bool)
        → Step past patience s
            (record s { loads = record { read_at = s.now; is_kept = is_kept } ∷ s.loads })
    ends :
        (now : ℕ) (r : R) (a b : List Load) (l : Load) (given : List Given) (w : Ending F)
        → w.ended_at ≡ now
        → spread.is_draw w.draw ≡ true
        → now ≤ l.read_at + patience
        → Step past patience
            (record { now = now; redis = r; loads = a ++ (l ∷ b); given = given })
            (record {
              now = now;
              redis = settle w l (loaded (past l.read_at)) r;
              loads = a ++ b;
              given = record { at = now; answer = loaded (past l.read_at) } ∷ given;
            })
    fails :
        (now : ℕ) (r : R) (a b : List Load) (l : Load) (given : List Given)
        → Step past patience
            (record { now = now; redis = r; loads = a ++ (l ∷ b); given = given })
            (record { now = now; redis = r; loads = a ++ b; given = given })
    invalidates :
        (s : System R) (is_refused : Bool)
        → Step past patience s
            (record s { redis = invalidate spread redis (some c) is_refused key s.redis })

  pub data Run (past : ℕ → Option Str) (patience : ℕ) (s : System R) : System R → Type 0 where
    start : Run past patience s s
    step : {t u : System R} → Run past patience s t → Step past patience t u → Run past patience s u
