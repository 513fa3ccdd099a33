-- ===== src/Rmq/Connection/Lifetime.antt =====
-- The connections that internal/rmq/conn.go leaves open, as its goroutines and the broker act in any
-- order.
use quorum_market.Common.{
  ℕ, ◌≡◌, refl, ◌∙◌, Bool, true, false, Option, none, some, List, [], ◌∷◌, ◌⊎◌,
}
use quorum_market.Httpx.Errors.{Result}
use quorum_market.Rmq.Connection.{
  Conn, Phase, watching, redialling, gone, installing, install, without, redialled, close,
}

pub data Step : Conn → Conn → Type 0 where
  -- The broker closes the current connection; the watcher, if there is one, dials again.
  loses :
      (link : ℕ) (is_closed : Bool) (open_links : List ℕ)
      → Step
          (record {
            link = some link;
            is_closed = is_closed;
            phase = watching;
            open_links = open_links;
          })
          (record {
            link = some link;
            is_closed = is_closed;
            phase = redialling;
            open_links = without link open_links;
          })
  loses_unwatched :
      (link : ℕ) (is_closed : Bool) (open_links : List ℕ)
      → Step
          (record {
            link = some link;
            is_closed = is_closed;
            phase = gone;
            open_links = open_links;
          })
          (record {
            link = some link;
            is_closed = is_closed;
            phase = gone;
            open_links = without link open_links;
          })
  redials :
      (link : Option ℕ) (is_closed : Bool) (open_links : List ℕ) (r : Result ℕ)
      → Step
          (record {
            link = link;
            is_closed = is_closed;
            phase = redialling;
            open_links = open_links;
          })
          (redialled r (record {
            link = link;
            is_closed = is_closed;
            phase = redialling;
            open_links = open_links;
          }))
  -- The broker closes the new connection before the watcher has the lock.
  loses_fresh :
      (link : Option ℕ) (is_closed : Bool) (fresh : ℕ) (open_links : List ℕ)
      → Step
          (record {
            link = link;
            is_closed = is_closed;
            phase = installing fresh;
            open_links = open_links;
          })
          (record {
            link = link;
            is_closed = is_closed;
            phase = installing fresh;
            open_links = without fresh open_links;
          })
  installs :
      (link : Option ℕ) (is_closed : Bool) (fresh : ℕ) (open_links : List ℕ)
      → Step
          (record {
            link = link;
            is_closed = is_closed;
            phase = installing fresh;
            open_links = open_links;
          })
          (install fresh (record {
            link = link;
            is_closed = is_closed;
            phase = installing fresh;
            open_links = open_links;
          }))
  -- The watcher ends with its context, or as the connection is closed on purpose.
  stops :
      (link : Option ℕ) (is_closed : Bool) (open_links : List ℕ)
      → Step
          (record { link = link; is_closed = is_closed; phase = watching; open_links = open_links })
          (record { link = link; is_closed = is_closed; phase = gone; open_links = open_links })
  closes : (c : Conn) → Step c (close c)

pub data Run (c : Conn) : Conn → Type 0 where
  start : Run c c
  step : {d e : Conn} → Run c d → Step d e → Run c e

-- Only this connection is open, or none.
abbrev AtMost : ℕ → List ℕ → Type 0
AtMost l open_links = (open_links ≡ []) ⊎ (open_links ≡ l ∷ [])

abbrev CurrentAtMost : Option ℕ → List ℕ → Type 0
CurrentAtMost none open_links = open_links ≡ []
CurrentAtMost (some link) open_links = AtMost link open_links

-- What may be open: the new connection before the watcher has the lock, nothing once the connection is
-- closed or while it is dialled again, and otherwise the current connection.
abbrev Holds : Option ℕ → Bool → Phase → List ℕ → Type 0
Holds link closed (installing fresh) open_links = AtMost fresh open_links
Holds link true phase open_links = open_links ≡ []
Holds link false redialling open_links = open_links ≡ []
Holds link false watching open_links = CurrentAtMost link open_links
Holds link false gone open_links = CurrentAtMost link open_links

abbrev IsTidy : Conn → Type 0
IsTidy c = Holds c.link c.is_closed c.phase c.open_links

-- Whether the watcher has a new connection and not yet the lock.
abbrev pub is_installing : Phase → Bool
is_installing (installing fresh) = true
is_installing _ = false

-- What is left once the watcher has had the lock, if it waits for it.
abbrev pub settled : Conn → Conn
settled c = elim c.phase [
  | installing fresh ↦ install fresh c
  | watching ↦ c
  | redialling ↦ c
  | gone ↦ c
]

Step-gone : {c d : Conn} → Step c d → c.phase ≡ gone → (d.phase ≡ gone) × (d.link ≡ c.link)
unfolding close
Step-gone (loses link closed ls) h = cc
Step-gone (loses_unwatched link closed ls) h = (refl, refl)
Step-gone (redials link closed ls r) h = cc
Step-gone (loses_fresh link closed fresh ls) h = cc
Step-gone (installs link closed fresh ls) h = cc
Step-gone (stops link closed ls) h = cc
Step-gone (closes c) h = (h, refl)

-- Once the watcher has ended, as it does where a redial gives up, nothing dials again: the connection
-- stays the one that it was.
pub gone_stays_gone : (c d : Conn) → c.phase ≡ gone → Run c d → (d.phase ≡ gone) × (d.link ≡ c.link)
gone_stays_gone c _ h start = (h, refl)
gone_stays_gone c _ h (step r last) =
    let (before, same) = gone_stays_gone c _ h r in
    let (after, kept) = Step-gone last before in (after, kept ∙ same)
