-- ===== src/Kv/Service/Fanout.antt =====
-- The write fan-outs of internal/kv/service.go.
use quorum_market.Common.{
  ℕ, suc, ◌+◌, ◌<◌, ◌≤◌, ◌≡◌, refl, Bool, true, false, none, some, List, [], ◌∷◌, arith, ℤ, pos,
  pos_part, leb, leb_ℤ, length, count, count-le-length, Str,
}
use quorum_market.Httpx.Errors.{is_ok}
use quorum_market.Kv.Config.{Config}
use quorum_market.Kv.Service.{Push, parallel_loop, sequential_loop, peers_of, replicate}

abbrev pub is_ack : Push → Bool
is_ack p = elim p.error [ none ↦ true | some e ↦ false ]

-- How many peers acknowledged.
abbrev pub acks : List Push → ℕ
acks = count is_ack

parallel_loop_exact :
    (n need acked failed : ℕ) (pushes : List Push)
    → n ≡ acked + failed + length pushes
    → acked < need
    → is_ok (parallel_loop n need acked failed pushes) ≡ leb need (acked + acks pushes)
unfolding parallel_loop
parallel_loop_exact n need acked failed [] all short = ground arith
parallel_loop_exact n need acked failed (p ∷ ps) all short = ground (
  arith,
  parallel_loop_exact n need acked (suc failed) ps,
  parallel_loop_exact n need (suc acked) failed ps,
  count-le-length is_ack ps,
)

-- one peer after another decides as all at once
sequential_loop-eq-parallel_loop :
    (n need acked failed : ℕ) (pushes : List Push)
    → (sequential_loop n need acked failed pushes).0 ≡ parallel_loop n need acked failed pushes
unfolding sequential_loop parallel_loop
sequential_loop-eq-parallel_loop n need acked failed [] = refl
sequential_loop-eq-parallel_loop n need acked failed (p ∷ ps) = ground (
  arith,
  sequential_loop-eq-parallel_loop n need acked (suc failed) ps,
  sequential_loop-eq-parallel_loop n need (suc acked) failed ps,
)

-- A fan-out to all the peers succeeds exactly if enough of them acknowledge: in parallel or one
-- after another, whatever the order of the acknowledgements.
pub replicate_ok_exact :
    (cfg : Config) (need : ℤ) (pushes : List Push)
    → length pushes ≡ length cfg.peers
    → is_ok (replicate cfg need pushes).0 ≡ leb_ℤ need (pos (acks pushes))
unfolding replicate
replicate_ok_exact cfg need pushes all =
    let n = length cfg.peers in
    ground (
      arith,
      all,
      parallel_loop_exact n (pos_part need) 0 0 pushes,
      sequential_loop-eq-parallel_loop n (pos_part need) 0 0 pushes,
      count-le-length is_ack pushes,
    )

sequential_loop_reaches :
    (n need acked failed : ℕ) (pushes : List Push)
    → is_ok (sequential_loop n need acked failed pushes).0 ≡ true
    → (sequential_loop n need acked failed pushes).1 ≡ peers_of pushes
unfolding sequential_loop
sequential_loop_reaches n need acked failed [] h = cc
sequential_loop_reaches n need acked failed (p ∷ ps) h = ground (
  arith,
  sequential_loop_reaches n need acked (suc failed) ps,
  sequential_loop_reaches n need (suc acked) failed ps,
)

no_peers : (peers : List Str) → length peers ≤ 0 → [] ≡ peers
no_peers [] h = refl
no_peers (p ∷ ps) h = elim h [ ]

-- A fan-out that succeeds has sent the entry to every peer, those past the quorum included.
pub replicate_reaches_all :
    (cfg : Config) (need : ℤ) (pushes : List Push)
    → peers_of pushes ≡ cfg.peers
    → is_ok (replicate cfg need pushes).0 ≡ true
    → (replicate cfg need pushes).1 ≡ cfg.peers
unfolding replicate
replicate_reaches_all cfg need pushes same done = ground (
  arith,
  no_peers cfg.peers,
  sequential_loop_reaches (length cfg.peers) (pos_part need) 0 0 pushes,
)
