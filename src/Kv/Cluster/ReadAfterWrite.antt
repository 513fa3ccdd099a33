-- ===== src/Kv/Cluster/ReadAfterWrite.antt =====
-- A write through one node and a read through another.
use quorum_market.Common.{
  ℕ, suc, ◌+◌, ◌≤◌, ◌<◌, ◌≡◌, ap, inl, inr, ◌⊎◌, true, Option, none, some, List, ◌∷◌, arith, ℤ, pos,
  pos_part, length, count, map, All, Str, Bool-cases, lookup, Perm, count-perm, length-perm,
  count-map, length-map,
}
use quorum_market.Httpx.Errors.{Error, ok}
use quorum_market.Kv.Entry.{Entry}
use quorum_market.Kv.Entry.Order.{newer_irrefl}
use quorum_market.Kv.Config.{Config}
use quorum_market.Kv.Store.{Store, get}
use quorum_market.Kv.Store.Apply.{Covers}
use quorum_market.Kv.Service.{Push, Reply, pred_ℤ, write, read}
use quorum_market.Kv.Service.Fanout.{is_ack}
use quorum_market.Kv.Service.Writes.{write_ok_acks, write_ok_stored}
use quorum_market.Kv.Service.ReadResults.{needed, read_newest, read_ok_answers}
use quorum_market.Kv.Cluster.{Node, push_of, received, reply_of}
use quorum_market.Kv.Cluster.Intersection.{
  covers, holds, IsLive, holders_seen, acks-le-holders, received-holds,
}

self_covers : (e : Entry) (r : Option Entry) → r ≡ some e → covers e r ≡ true
self_covers e none h = cc
self_covers e (some m) h = ground (arith, newer_irrefl e)

-- the write quorum, counted over the nodes that hold the entry afterwards
holders_count :
    (w : ℕ) (key : Str) (e : Entry) (writer reader : Node) (others : List Node)
    → e.key ≡ key
    → holds key e writer ≡ true
    → w ≤ suc (count (λ n. is_ack (push_of n)) (reader ∷ others))
    → (holds key e (received e reader) ≡ true)
      ⊎ (w ≤ count (holds key e) (writer ∷ map (received e) others))
holders_count w key e writer reader others k mine enough =
    elim (Bool-cases (is_ack (push_of reader))) [
      | inl ack ↦ inl (received-holds key e reader k ack)
      | inr missed ↦ inr (ground (arith, acks-le-holders key e others k))
    ]

abbrev has_store : Node → Store → Node
has_store n s = record n { store = s }

-- A cluster of a writer, a reader and any other nodes, whose write quorum `w` and read quorum
-- `r + 1` add up to more than its size. The writer writes, and its call succeeds; then the reader
-- reads the key, and its call succeeds: the answer is the entry written or a newer one. It does not
-- matter which peers acknowledged and which answered, nor in which order, nor whether pushes that
-- failed have been applied. The copies of the key are taken not to have expired when they are read,
-- and nothing else happens to the stores between the two calls.
pub read_after_write :
    (cfg_w cfg_r : Config) (now t w r : ℕ) (cancel_w cancel_r : Option Error) (writer reader : Node)
    (others : List Node) (pushes : List Push) (replies : List Reply) (key value : Str) (ttl : ℤ)
    (e : Entry) (found : Option Entry)
    → cfg_w.write_quorum ≡ pos w
    → cfg_r.read_quorum ≡ pos (suc r)
    → length cfg_w.peers ≡ suc (length others)
    → length cfg_r.peers ≡ suc (length others)
    → suc (suc (length others)) < w + suc r
    → Perm pushes (map push_of (reader ∷ others))
    → (write cfg_w now cancel_w pushes key value ttl writer.store).result ≡ ok e
    → let writer' = record writer {
      store = (write cfg_w now cancel_w pushes key value ttl writer.store).store;
    } in
      let reader' = received e reader in
      let nodes = writer' ∷ map (received e) others in
      IsLive t key reader'
      → All (IsLive t key) nodes
      → Perm replies (map (reply_of t key) nodes)
      → (read cfg_r t cancel_r replies key reader'.store).result ≡ ok found
      → Covers found e
read_after_write cfg_w cfg_r now t w r cancel_w cancel_r writer reader others pushes replies key
      value ttl e found ew er nw nr overlap push_order written live_r live reply_order answered =
    let out = write cfg_w now cancel_w pushes key value ttl writer.store in
    let writer' = has_store writer out.store in
    let reader' = received e reader in
    let (same_key, stored) =
      write_ok_stored cfg_w now cancel_w pushes key value ttl writer.store e written in
    let mine : holds key e writer' ≡ true = self_covers e (lookup key out.store.entries) stored in
    let n_pushes : length pushes ≡ length cfg_w.peers = omega (
      arith,
      nw,
      length-perm pushes (map push_of (reader ∷ others)) push_order,
      length-map push_of (reader ∷ others),
    ) in
    let n_replies : length replies ≡ length cfg_r.peers = omega (
      arith,
      nr,
      length-perm replies (map (reply_of t key) (writer' ∷ map (received e) others)) reply_order,
      length-map (reply_of t key) (writer' ∷ map (received e) others),
      length-map (received e) others,
    ) in
    let enough : w ≤ suc (count (λ n. is_ack (push_of n)) (reader ∷ others)) = ground (
      arith,
      ew,
      write_ok_acks cfg_w now cancel_w pushes key value ttl writer.store e n_pushes written,
      count-perm is_ack pushes (map push_of (reader ∷ others)) push_order,
      count-map is_ack push_of (reader ∷ others),
    ) in
    let need : needed cfg_r ≡ r = ap (λ q. pos_part (pred_ℤ q)) er in
    holders_seen t key e (writer' ∷ map (received e) others) replies (needed cfg_r)
      (get t key reader'.store) found live reply_order
      (read_ok_answers cfg_r t cancel_r replies key reader'.store found n_replies answered)
      (read_newest cfg_r t cancel_r replies key reader'.store found answered)
      (elim (holders_count w key e writer' reader others same_key mine enough) [
        | inl held ↦ inl (rw live_r held)
        | inr many ↦ inr (omega (arith, many, need, overlap, length-map (received e) others))
      ])
