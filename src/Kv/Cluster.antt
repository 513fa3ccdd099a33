-- ===== src/Kv/Cluster.antt =====
-- A cluster as one coordinator sees it: internal/kv/replicator.go and the replication handlers of
-- internal/kv/server.go between the nodes, each with its own store.
pub mod Intersection
pub mod ReadAfterWrite
use quorum_market.Common.{
  ℕ, Bool, true, false, not, ◌||◌, Option, none, some, if◌then◌else◌, Str, lookup,
}
use quorum_market.Httpx.Errors.{Error, Result, ok, err}
use quorum_market.Kv.Entry.{Entry, newer}
use quorum_market.Kv.Store.{Store, get, apply}
use quorum_market.Kv.Service.{Push, Reply, reply}
use quorum_market.Kv.Service.Fanout.{is_ack}

-- A node, and what happens to the calls that a coordinator makes to it: the error of a push and of
-- a fetch, and whether a push that fails for the caller has been applied all the same.
pub record Node : Type 0 where
  pub url : Str
  pub store : Store
  pub push_error : Option Error
  pub applied_late : Bool
  pub fetch_error : Option Error

-- `Push`: what the coordinator sees of it.
abbrev pub push_of : Node → Push
push_of n = record { peer = n.url; error = n.push_error }

-- The node once the push is over. (`PUT /internal/kv` applies an entry whose key is not empty.)
unfoldable pub received : Entry → Node → Node
received e n =
    if is_ack (push_of n) || n.applied_late then record n { store = (apply e n.store).0 } else n

-- `Fetch`: the node's own copy, or the transport's error.
unfoldable pub reply_of : ℕ → Str → Node → Reply
reply_of now key n =
    reply n.url (elim n.fetch_error [ some x ↦ err x | none ↦ ok (get now key n.store) ])
