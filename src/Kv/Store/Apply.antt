-- ===== src/Kv/Store/Apply.antt =====
-- What `Apply` and `CoordinatorWrite` do to the map, key by key.
use quorum_market.Common.{
  ◌≡◌, refl, false, Option, none, some, inl, inr, arith, ℕ, ℤ, if◌then◌else◌, Bool-cases, Str,
  str_eq, str_eq_refl, str_eq_iff, lookup, lookup-insert,
}
use quorum_market.Kv.Entry.{Entry, newer}
use quorum_market.Kv.Entry.Order.{newer_irrefl, newer_mono}
use quorum_market.Kv.Store.{Store, apply, coordinator_write}

-- What a key holds once an entry for it has arrived.
abbrev pub winner : Entry → Option Entry → Entry
winner e none = e
winner e (some prev) = if newer e prev then e else prev

pub lookup-apply :
    (e : Entry) (s : Store) (k : Str)
    → lookup k (apply e s).0.entries
      ≡ (if str_eq e.key k then some (winner e (lookup k s.entries)) else lookup k s.entries)
unfolding apply
lookup-apply e s k = ground (arith, lookup-insert e.key k e s.entries, str_eq_iff e.key k)

pub node_id-apply : (e : Entry) (s : Store) → (apply e s).0.node_id ≡ s.node_id
unfolding apply
node_id-apply e s = ground arith

-- `r` holds an entry that is not older than `e`.
abbrev pub Covers : Option Entry → Entry → Type 0
Covers none e = ⊥
Covers (some m) e = newer e m ≡ false

pub Covers-winner : (e : Entry) (r : Option Entry) → Covers (some (winner e r)) e
Covers-winner e none = newer_irrefl e
Covers-winner e (some prev) = ground (arith, newer_irrefl e)

pub Covers-winner_mono :
    (e d : Entry) (r : Option Entry) → Covers r d → Covers (some (winner e r)) d
Covers-winner_mono e d none c = absurd c
Covers-winner_mono e d (some prev) c = ground (arith, newer_mono d prev e)

-- After a replicated entry arrives its key holds that entry or a newer one.
pub apply-Covers : (e : Entry) (s : Store) → Covers (lookup e.key (apply e s).0.entries) e
apply-Covers e s =
    rw (lookup-apply e s e.key, str_eq_refl e.key) (Covers-winner e (lookup e.key s.entries))

-- What a key covers it goes on covering, whatever arrives.
pub apply-Covers_mono :
    (e d : Entry) (s : Store) (k : Str)
    → Covers (lookup k s.entries) d
    → Covers (lookup k (apply e s).0.entries) d
apply-Covers_mono e d s k c = elim (Bool-cases (str_eq e.key k)) [
  | inl same ↦ rw (lookup-apply e s k, same) (Covers-winner_mono e d (lookup k s.entries) c)
  | inr other ↦ rw (lookup-apply e s k, other) c
]

-- What `CoordinatorWrite` stores.
pub coordinator_write-stored :
    (now : ℕ) (key value : Str) (ttl : ℤ) (s : Store)
    → let (s', e) = coordinator_write now key value ttl s in
      (e.key ≡ key) × (lookup key s'.entries ≡ some e)
unfolding coordinator_write
coordinator_write-stored now key value ttl s = (refl, rw (lookup-insert, str_eq_refl key))
