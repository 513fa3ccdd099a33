-- ===== src/Kv/Service/Writes.antt =====
-- `Write` of internal/kv/service.go, from its guards to the quorum.
use quorum_market.Common.{
  ℕ, zero, suc, ◌≡◌, refl, ◌∙◌, Bool, true, not, ◌&&◌, Option, none, some, List, arith, ℤ, pos,
  negsuc, leb_ℤ, length, Str, is_empty, str_eq, lookup,
}
use quorum_market.Httpx.Errors.{Error, Result, ok, err, is_ok}
use quorum_market.Kv.Entry.{Entry}
use quorum_market.Kv.Config.{Config, mode_leader_follower, is_leader}
use quorum_market.Kv.Store.{Store, coordinator_write}
use quorum_market.Kv.Store.Apply.{coordinator_write-stored}
use quorum_market.Kv.Service.{
  Push, pred_ℤ, replicate, peers_of, sleep_ctx, with_entry, write_entry, write,
}
use quorum_market.Kv.Service.Fanout.{acks, replicate_ok_exact, replicate_reaches_all}

pub leb-pred_ℤ : (w : ℤ) (a : ℕ) → leb_ℤ (pred_ℤ w) (pos a) ≡ leb_ℤ w (pos (suc a))
leb-pred_ℤ (pos zero) a = ground arith
leb-pred_ℤ (pos (suc n)) a = ground arith
leb-pred_ℤ (negsuc n) a = ground arith

-- The node may coordinate a write of the key.
abbrev pub may_write : Config → Str → Bool
may_write cfg key =
    not (is_empty key) && not (str_eq cfg.mode mode_leader_follower && not (is_leader cfg))

is_ok-with_entry : (e : Entry) (r : Result (Unit {0})) → is_ok (with_entry e r) ≡ is_ok r
is_ok-with_entry e (ok u) = refl
is_ok-with_entry e (err x) = refl

write_entered :
    (cfg : Config) (now : ℕ) (cancel : Option Error) (pushes : List Push) (key value : Str)
    (ttl : ℤ) (s : Store)
    → may_write cfg key ≡ true
    → sleep_ctx cfg.write_delay cancel ≡ none
    → write cfg now cancel pushes key value ttl s
      ≡ write_entry cfg pushes (coordinator_write now key value ttl s)
unfolding write
write_entered cfg now cancel pushes key value ttl s may awake = ground arith

-- A write that passes its guards is stored on the coordinator whatever the peers answer, and it
-- succeeds exactly if, with the coordinator's own copy, the write quorum acknowledges.
pub write_quorum_exact :
    (cfg : Config) (now : ℕ) (cancel : Option Error) (pushes : List Push) (key value : Str)
    (ttl : ℤ) (s : Store)
    → may_write cfg key ≡ true
    → sleep_ctx cfg.write_delay cancel ≡ none
    → length pushes ≡ length cfg.peers
    → let out = write cfg now cancel pushes key value ttl s in
      (out.store ≡ (coordinator_write now key value ttl s).0)
      × (is_ok out.result ≡ leb_ℤ cfg.write_quorum (pos (suc (acks pushes))))
write_quorum_exact cfg now cancel pushes key value ttl s may awake all =
    rw (write_entered cfg now cancel pushes key value ttl s may awake) (
      unfold write_entry in
      (
        refl,
        is_ok-with_entry (coordinator_write now key value ttl s).1
              (replicate cfg (pred_ℤ cfg.write_quorum) pushes).0
            ∙ (replicate_ok_exact cfg (pred_ℤ cfg.write_quorum) pushes all
                ∙ leb-pred_ℤ cfg.write_quorum (acks pushes)),
      ))

-- A successful write returns the entry that the coordinator stored, and has sent it to every peer.
pub write_ok_reaches_all :
    (cfg : Config) (now : ℕ) (cancel : Option Error) (pushes : List Push) (key value : Str)
    (ttl : ℤ) (s : Store) {e : Entry}
    → peers_of pushes ≡ cfg.peers
    → (write cfg now cancel pushes key value ttl s).result ≡ ok e
    → (e ≡ (coordinator_write now key value ttl s).1)
      × ((write cfg now cancel pushes key value ttl s).sent ≡ cfg.peers)
unfolding write write_entry
write_ok_reaches_all cfg now cancel pushes key value ttl s same h =
    ground (arith, replicate_reaches_all cfg (pred_ℤ cfg.write_quorum) pushes)

module _ (cfg : Config) (now : ℕ) (cancel : Option Error) (pushes : List Push) (key value : Str)
    (ttl : ℤ) (s : Store) (e : Entry) where
  pub write_ok_acks :
      length pushes ≡ length cfg.peers
      → (write cfg now cancel pushes key value ttl s).result ≡ ok e
      → leb_ℤ cfg.write_quorum (pos (suc (acks pushes))) ≡ true
  unfolding write
  write_ok_acks all h = ground (
    arith,
    replicate_ok_exact cfg (pred_ℤ cfg.write_quorum) pushes,
    leb-pred_ℤ cfg.write_quorum (acks pushes),
  )

  pub write_ok_stored :
      (write cfg now cancel pushes key value ttl s).result ≡ ok e
      → (e.key ≡ key)
        × (lookup key (write cfg now cancel pushes key value ttl s).store.entries ≡ some e)
  unfolding write
  write_ok_stored h = ground (arith, coordinator_write-stored now key value ttl s)
