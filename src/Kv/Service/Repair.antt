-- ===== src/Kv/Service/Repair.antt =====
-- `repair` of internal/kv/service.go: what a read does to the coordinator's store and to its
-- peers.
use quorum_market.Common.{
  ℕ, suc, ◌≡◌, refl, sym, ap, subst, ◌∙◌, inl, inr, ◌⊎◌, true, Option, some, List, [], ◌∷◌, arith,
  if◌then◌else◌, length, Str, lookup, Bool-cases, Memᴰ, All,
}
use quorum_market.Httpx.Errors.{Error, Result, ok}
use quorum_market.Kv.Entry.{Entry}
use quorum_market.Kv.Entry.Order.{newer_irrefl}
use quorum_market.Kv.Config.{Config}
use quorum_market.Kv.Store.{Store, get}
use quorum_market.Kv.Store.Apply.{Covers, apply-Covers}
use quorum_market.Kv.Service.{
  Reply, reply, ReadOut, read_loop, finish_read, repair, stale_peers, is_current, read_quorum, read,
}
use quorum_market.Kv.Service.Reads.{first_answers, IsQuorumRead}
use quorum_market.Kv.Service.ReadResults.{needed, finish_read_from, loop_finds, read_cases}

-- A reply that is up to date, or whose peer is among those sent the best entry.
abbrev pub Mended : Entry → List Str → Reply → Type 0
Mended best repaired (reply p a) = (is_current best a ≡ true) ⊎ Memᴰ p repaired

Mended-cons :
    (best : Entry) (p : Str) (repaired : List Str) (rs : List Reply)
    → All (Mended best repaired) rs
    → All (Mended best (p ∷ repaired)) rs
Mended-cons best p repaired [] h = tt
Mended-cons best p repaired (reply q a ∷ rs) h = (
  elim h.0 [ inl fine ↦ inl fine | inr m ↦ inr (Memᴰ.tail m) ],
  Mended-cons best p repaired rs h.1,
)

stale_peers-cons :
    (best : Entry) (p : Str) (a : Result (Option Entry)) (rs : List Reply)
    → stale_peers best (reply p a ∷ rs)
      ≡ (if is_current best a then stale_peers best rs else p ∷ stale_peers best rs)
unfolding stale_peers
stale_peers-cons best p a rs = refl

stale_peers-Mended :
    (best : Entry) (collected : List Reply)
    → All (Mended best (stale_peers best collected)) collected
stale_peers-Mended best [] = tt
stale_peers-Mended best (reply p a ∷ rs) =
    let others = stale_peers best rs in
    let ih = stale_peers-Mended best rs in
    subst (λ sent. All (Mended best sent) (reply p a ∷ rs)) (sym (stale_peers-cons best p a rs))
      (elim (Bool-cases (is_current best a)) [
        | inl fine ↦
            subst (λ b. All (Mended best (if b then others else p ∷ others)) (reply p a ∷ rs))
              (sym fine) (inl fine, ih)
        | inr stale ↦
            subst (λ b. All (Mended best (if b then others else p ∷ others)) (reply p a ∷ rs))
              (sym stale) (inr (Memᴰ.head refl), Mended-cons best p others rs ih)
      ])

finish_read_mends :
    (cfg : Config) (held : Option Entry) (s : Store) (best : Entry) (c : List Reply)
    → cfg.read_repair ≡ true
    → All (Mended best (finish_read cfg held s (ok (some best, c))).repaired) c
unfolding finish_read repair
finish_read_mends cfg held s best c on = rw on (stale_peers-Mended best c)

-- what the store holds after `repair`
repair-Covers :
    (cfg : Config) (now : ℕ) (s : Store) (best : Entry) (c : List Reply)
    → Covers
        (lookup best.key (finish_read cfg (get now best.key s) s (ok (some best, c))).store.entries)
        best
unfolding finish_read repair get
repair-Covers cfg now s best c = ground (arith, apply-Covers best s)

held_Covers :
    (now : ℕ) (s : Store) (best : Entry)
    → get now best.key s ≡ some best
    → Covers (lookup best.key s.entries) best
unfolding get
held_Covers now s best h = ground (arith, newer_irrefl best)

-- The store covers the entry, and with read repair on every counted reply is mended.
abbrev pub Outcome : Config → Entry → List Reply → ReadOut → Type 0
Outcome cfg best counted out =
    Covers (lookup best.key out.store.entries) best
    × (cfg.read_repair ≡ true → All (Mended best out.repaired) counted)

fan_mends :
    (cfg : Config) (now : ℕ) (s : Store) (best : Entry) (k : ℕ) (replies : List Reply)
    → (read_quorum cfg best.key (get now best.key s) (suc k) replies s).result ≡ ok (some best)
    → Outcome cfg best
        (first_answers (suc k) replies)
        (read_quorum cfg best.key (get now best.key s) (suc k) replies s)
unfolding read_quorum
fan_mends cfg now s best k replies h =
    let held = get now best.key s in
    let r = read_loop (length cfg.peers) (suc k) 0 0 held [] replies in
    let (c, p, q) =
      finish_read_from cfg held s
        (λ b c. IsQuorumRead (suc k) held b c × (c ≡ first_answers (suc k) replies)) r (some best)
        (loop_finds cfg held k replies) h in
    subst (λ x. Outcome cfg best (first_answers (suc k) replies) (finish_read cfg held s x)) (sym q)
      (subst (λ x. Outcome cfg best x (finish_read cfg held s (ok (some best, c)))) p.1
        (repair-Covers cfg now s best c, finish_read_mends cfg held s best c))

read_leaves :
    (cfg : Config) (now : ℕ) (cancel : Option Error) (replies : List Reply) (s : Store)
    (best : Entry)
    → (read cfg now cancel replies best.key s).result ≡ ok (some best)
    → Outcome cfg best (first_answers (needed cfg) replies) (read cfg now cancel replies best.key s)
read_leaves cfg now cancel replies s best h =
    let held = get now best.key s in
    elim (read_cases cfg now cancel replies best.key s (some best) h) [
      | inl (low, local, same) ↦
          (rw same (held_Covers now s best local), λ on. rw low (unfold first_answers in tt))
      | inr (k, high, fan) ↦ rw high (
          subst (λ o. Outcome cfg best (first_answers (suc k) replies) o) (sym fan)
            (fan_mends cfg now s best k replies (ap (λ o. o.result) (sym fan) ∙ h)))
    ]

-- With read repair on, a read that returns an entry, of the key that was asked for, leaves a node
-- that holds that entry or a newer one, and sends it to each peer whose answer was counted and was
-- missing or older.
pub read_repairs :
    (cfg : Config) (now : ℕ) (cancel : Option Error) (replies : List Reply) (s : Store)
    (best : Entry)
    → cfg.read_repair ≡ true
    → (read cfg now cancel replies best.key s).result ≡ ok (some best)
    → let out = read cfg now cancel replies best.key s in
      Covers (lookup best.key out.store.entries) best
      × All (Mended best out.repaired) (first_answers (needed cfg) replies)
read_repairs cfg now cancel replies s best on h =
    let left = read_leaves cfg now cancel replies s best h in (left.0, left.1 on)
