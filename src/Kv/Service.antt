-- ===== src/Kv/Service.antt =====
-- internal/kv/service.go: writes and reads by quorum. What the network does is an argument: the
-- pushes and the replies stand in the order in which their results reach the coordinator, which is
-- the channel's order for a parallel fan-out and the order of the peers for a sequential one; and
-- `cancel` is the error of a context that ends during the simulated delay.
pub mod Fanout
pub mod Writes
pub mod Reads
pub mod ReadResults
pub mod Repair
pub mod Refusals
pub mod Scans
use quorum_market.Common.{
  ℕ, zero, suc, ◌+◌, ◌-◌, Bool, true, false, not, ◌&&◌, ◌||◌, Option, none, some, List, [], ◌∷◌,
  ◌++◌, ℤ, pos, negsuc, pos_part, neg_part, ltb, leb, ltb_ℤ, leb_ℤ, if◌then◌else◌, length, take,
  Str, is_empty, str_eq, Assoc, lookup, insert,
}
use quorum_market.Httpx.Errors.{Error, errorf, wrap, Result, ok, err}
use quorum_market.Kv.Entry.{Entry, newer}
use quorum_market.Kv.Config.{Config, mode_leader_follower, is_leader}
use quorum_market.Kv.Store
use quorum_market.Kv.Store.{Store, get, coordinator_write, apply, sort_by_key}

-- The result of pushing the entry to one peer; `none` is an acknowledgement.
pub record Push : Type 0 where
  pub peer : Str
  pub error : Option Error

-- What `sleepCtx` returns.
abbrev pub sleep_ctx : ℤ → Option Error → Option Error
sleep_ctx delay cancel = if leb_ℤ delay (pos 0) then none else cancel

-- `quorum - 1`, for a quorum of at least 1 - 2^63
abbrev pub pred_ℤ : ℤ → ℤ
pred_ℤ (pos zero) = negsuc 0
pred_ℤ (pos (suc n)) = pos n
pred_ℤ (negsuc n) = negsuc (suc n)

-- The loop of `replicateParallel` over the acknowledgements, for `n` peers.
unfoldable pub parallel_loop : ℕ → ℕ → ℕ → ℕ → List Push → Result (Unit {0})
parallel_loop n need acked failed [] = err (errorf 503)
parallel_loop n need acked failed (push ∷ rest) =
    let after_failure = parallel_loop n need acked (suc failed) rest in
    let after_ack = parallel_loop n need (suc acked) failed rest in
    elim push.error [
      | some e ↦ if ltb (n - suc failed) need then err (wrap 503 e) else after_failure
      | none ↦ if leb need (suc acked) then ok tt else after_ack
    ]

abbrev pub also_sent : Str → Result (Unit {0}) × List Str → Result (Unit {0}) × List Str
also_sent peer (r, sent) = (r, peer ∷ sent)

abbrev pub peers_of : List Push → List Str
peers_of [] = []
peers_of (p ∷ ps) = p.peer ∷ peers_of ps

-- The loop of `replicateSequential`, with the peers that it sends the entry to: once the quorum is
-- met `pushAsync` sends it to the rest.
unfoldable pub sequential_loop : ℕ → ℕ → ℕ → ℕ → List Push → Result (Unit {0}) × List Str
sequential_loop n need acked failed [] = (err (errorf 503), [])
sequential_loop n need acked failed (push ∷ rest) =
    let after_failure = also_sent push.peer (sequential_loop n need acked (suc failed) rest) in
    let after_ack = also_sent push.peer (sequential_loop n need (suc acked) failed rest) in
    elim push.error [
      | some e ↦
          if ltb (n - suc failed) need then (err (wrap 503 e), push.peer ∷ []) else after_failure
      | none ↦ if leb need (suc acked) then (ok tt, push.peer ∷ peers_of rest) else after_ack
    ]

-- The outcome of a fan-out, and the peers that the entry is sent to.
unfoldable pub replicate : Config → ℤ → List Push → Result (Unit {0}) × List Str
unfolding parallel_loop sequential_loop
replicate cfg need pushes =
    let n = length cfg.peers in
    if leb n 0
    then (if ltb_ℤ (pos 0) need then (err (errorf 503), []) else (ok tt, []))
    else if leb_ℤ need (pos 0)
    then (ok tt, cfg.peers)
    else if cfg.sequential
    then sequential_loop n (pos_part need) 0 0 pushes
    else (parallel_loop n (pos_part need) 0 0 pushes, cfg.peers)

pub record Written : Type 0 where
  pub result : Result Entry
  pub store : Store
  pub sent : List Str

abbrev pub with_entry : Entry → Result (Unit {0}) → Result Entry
with_entry e (ok _) = ok e
with_entry e (err x) = err x

-- The part of `Write` after its guards.
write_entry : Config → List Push → Store × Entry → Written
write_entry cfg pushes (s, e) =
    let (r, sent) = replicate cfg (pred_ℤ cfg.write_quorum) pushes in
    record { result = with_entry e r; store = s; sent = sent }

unfoldable pub write : Config → ℕ → Option Error → List Push → Str → Str → ℤ → Store → Written
unfolding write_entry
write cfg now cancel pushes key value ttl s =
    if is_empty key
    then record { result = err (errorf 400); store = s; sent = [] }
    else if str_eq cfg.mode mode_leader_follower && not (is_leader cfg)
    then record { result = err (errorf 400); store = s; sent = [] }
    else elim (sleep_ctx cfg.write_delay cancel) [
      | some e ↦ record { result = err (wrap 503 e); store = s; sent = [] }
      | none ↦ write_entry cfg pushes (coordinator_write now key value ttl s)
    ]

-- `ApplyReplication`
unfoldable pub apply_replication : Config → Option Error → Entry → Store → Store × Option Error
apply_replication cfg cancel e s =
    if is_empty e.key then (s, some (errorf 400)) else elim (sleep_ctx cfg.write_delay cancel) [
      | some x ↦ (s, some (wrap 503 x))
      | none ↦ ((apply e s).0, none)
    ]

-- `peerRead`: what a peer answers to a fetch, `ok none` where it does not hold the key.
pub data Reply : Type 0 where
  reply : (peer : Str) (answer : Result (Option Entry)) → Reply

-- The newer of the best entry so far and what a peer found.
unfoldable pub better : Option Entry → Option Entry → Option Entry
better best none = best
better none (some e) = some e
better (some best) (some e) = if newer e best then some e else some best

-- The loop of `readQuorum`: the best entry and the replies collected.
unfoldable pub read_loop :
    ℕ → ℕ → ℕ → ℕ → Option Entry → List Reply → List Reply → Result (Option Entry × List Reply)
read_loop n need answered failed best collected [] =
    if ltb answered need then err (errorf 503) else ok (best, collected)
read_loop n need answered failed best collected (reply p (err e) ∷ rest) =
    let later = read_loop n need answered (suc failed) best collected rest in
    if ltb (n - suc failed) need then err (wrap 503 e) else later
read_loop n need answered failed best collected (reply p (ok found) ∷ rest) =
    let best' = better best found in
    let collected' = collected ++ reply p (ok found) ∷ [] in
    let later = read_loop n need (suc answered) failed best' collected' rest in
    if leb need (suc answered) then ok (best', collected') else later

-- `!haveLocal || best.Newer(local)`
abbrev pub learned : Option Entry → Entry → Bool
learned none best = true
learned (some held) best = newer best held

-- `r.found && !best.Newer(r.entry)`
abbrev pub is_current : Entry → Result (Option Entry) → Bool
is_current best (ok (some e)) = not (newer best e)
is_current best (ok none) = false
is_current best (err x) = false

unfoldable pub stale_peers : Entry → List Reply → List Str
stale_peers best [] = []
stale_peers best (reply p a ∷ rest) =
    let others = stale_peers best rest in if is_current best a then others else p ∷ others

-- The store after `repair`, and the peers that the best entry is pushed to.
unfoldable pub repair : Config → Option Entry → Entry → List Reply → Store → Store × List Str
unfolding stale_peers
repair cfg held best collected s =
    let s' = if learned held best then (apply best s).0 else s in
    (s', if cfg.read_repair then stale_peers best collected else [])

pub record ReadOut : Type 0 where
  pub result : Result (Option Entry)
  pub store : Store
  pub repaired : List Str

pub finish_read : Config → Option Entry → Store → Result (Option Entry × List Reply) → ReadOut
unfolding repair
finish_read cfg held s (err e) = record { result = err e; store = s; repaired = [] }
finish_read cfg held s (ok (none, collected)) = record {
  result = ok none;
  store = s;
  repaired = [];
}
finish_read cfg held s (ok (some best, collected)) =
    let (s', repaired) = repair cfg held best collected s in
    record { result = ok (some best); store = s'; repaired = repaired }

unfoldable pub read_quorum : Config → Str → Option Entry → ℕ → List Reply → Store → ReadOut
unfolding read_loop finish_read
read_quorum cfg key held need replies s =
    finish_read cfg held s (read_loop (length cfg.peers) need 0 0 held [] replies)

unfoldable pub read : Config → ℕ → Option Error → List Reply → Str → Store → ReadOut
unfolding read_quorum
read cfg now cancel replies key s =
    if is_empty key
    then record { result = err (errorf 400); store = s; repaired = [] }
    else elim (sleep_ctx cfg.read_delay cancel) [
      | some e ↦ record { result = err (wrap 503 e); store = s; repaired = [] }
      | none ↦
          let held = get now key s in
          let need = pred_ℤ cfg.read_quorum in
          if leb_ℤ need (pos 0)
          then record { result = ok held; store = s; repaired = [] }
          else if ltb (length cfg.peers) (pos_part need)
          then record { result = err (errorf 503); store = s; repaired = [] }
          else read_quorum cfg key held (pos_part need) replies s
    ]
