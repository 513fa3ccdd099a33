-- ===== src/Rmq/Connection.antt =====
-- internal/rmq/conn.go: dialling the broker, and the life of a connection. Connections of the AMQP
-- library are numbers; what it answers is an argument. Heartbeats and time-outs are left out.
pub mod Lifetime
mod Tests
use quorum_market.Common.{
  ℕ, zero, suc, Bool, true, false, not, Option, none, some, List, [], ◌∷◌, ◌==◌, if◌then◌else◌,
}
use quorum_market.Httpx.Errors.{Error, plain, wrap, Result, ok, err}

-- What happens around one attempt of `dial`: the error of the context before it, the connection or an
-- error, and the error of a context that ends during the wait after it.
pub record Attempt : Type 0 where
  pub cancelled : Option Error
  pub dialled : Result ℕ
  pub cut_short : Option Error

-- The loop of `dial`, with the attempts left.
unfoldable pub dial : ℕ → List Attempt → Result ℕ
dial zero attempts = err plain
dial (suc n) [] = err plain
dial (suc n) (a ∷ rest) =
    let later = dial n rest in
    elim a.cancelled [
      | some e ↦ err e
      | none ↦ elim a.dialled [
        | ok link ↦ ok link
        | err e ↦ elim a.cut_short [ some x ↦ err x | none ↦ later ]
      ]
    ]

-- Where the goroutine of `watch` stands; `installing`, it has a new connection and not yet the lock.
pub data Phase : Type 0 where
  watching redialling gone : Phase
  installing : (fresh : ℕ) → Phase

-- `Conn`, with the connections that are open.
pub record Conn : Type 0 where
  pub link : Option ℕ
  pub is_closed : Bool
  pub phase : Phase
  pub open_links : List ℕ

abbrev pub without : ℕ → List ℕ → List ℕ
without link [] = []
without link (l ∷ ls) = let rest = without link ls in if l == link then rest else l ∷ rest

abbrev pub without_link : Option ℕ → List ℕ → List ℕ
without_link none ls = ls
without_link (some link) ls = without link ls

-- `Dial`, once `dial` has a connection
abbrev pub connected : ℕ → Conn
connected link = record {
  link = some link;
  is_closed = false;
  phase = watching;
  open_links = link ∷ [];
}

-- The end of a redial.
unfoldable pub redialled : Result ℕ → Conn → Conn
redialled (err e) c = record c { phase = gone }
redialled (ok fresh) c = record c { phase = installing fresh; open_links = fresh ∷ c.open_links }

-- What the watcher does under the lock with a new connection.
unfoldable pub install : ℕ → Conn → Conn
install fresh c =
    if c.is_closed
    then record c { phase = gone; open_links = without fresh c.open_links }
    else record c { link = some fresh; phase = watching }

-- `Channel`, which is opened on the current connection, and `Healthy`, where `is_live` is whether that
-- connection is open
unfoldable pub channel : Conn → Result ℕ
channel c =
    if c.is_closed then err plain else elim c.link [ none ↦ err plain | some link ↦ ok link ]

unfoldable pub healthy : Conn → Bool → Bool
healthy c is_live =
    if c.is_closed then false else elim c.link [ none ↦ false | some link ↦ is_live ]

-- `Close`
unfoldable pub close : Conn → Conn
close c = record c { is_closed = true; open_links = without_link c.link c.open_links }
