-- ===== src/Kv/Store/Expiry.antt =====
-- The life of an entry: `Get` after `CoordinatorWrite`, and what `Sweep` changes.
use quorum_market.Common.{
  ℕ, ◌+◌, ◌≤◌, ◌≡◌, refl, true, false, not, ◌&&◌, Option, none, some, arith, ℤ, pos, pos_part,
  ltb_ℤ, ◌<ℤ◌, max_i64, lt-suc_i64, leb, if◌then◌else◌, Str, str_eq, lookup, lookup-insert,
  lookup-keep, keep_value,
}
use quorum_market.Kv.Entry.{Entry, unix_milli, newer, expired}
use quorum_market.Kv.Store.{Store, unexpired, get, next_version, coordinator_write, apply, sweep}
use quorum_market.Kv.Store.Invariant.{IsWellFormed, sweep_loop-eq-keep}

-- An entry written at `now` is read at `t`, until its lifetime has run out in milliseconds, and
-- with no end if it has none; every other key reads as before. (The clock is past the first
-- millisecond of the epoch.)
pub get-coordinator_write :
    (now t : ℕ) (key j value : Str) (ttl : ℤ) (s : Store)
    → 1000000 ≤ now
    → get t j (coordinator_write now key value ttl s).0 ≡ (
        if str_eq key j
        then (if ltb_ℤ (pos 0) ttl && leb (unix_milli (now + pos_part ttl)) (unix_milli t)
            then none
            else some (coordinator_write now key value ttl s).1)
        else get t j s)
unfolding get coordinator_write expired
get-coordinator_write now t key j value ttl s h = simp lookup-insert (ground arith)

-- A write of a key that is held supersedes what it replaces, unless the version counter is spent.
pub coordinator_write-newer :
    (now : ℕ) (key value : Str) (ttl : ℤ) (s : Store) {prev : Entry}
    → lookup key s.entries ≡ some prev
    → prev.version <ℤ pos max_i64
    → newer (coordinator_write now key value ttl s).1 prev ≡ true
unfolding coordinator_write next_version newer
coordinator_write-newer now key value ttl s {prev} held room =
    rw held (ground (arith, lt-suc_i64 prev.version))

-- what is expired stays expired
expired_mono : (e : Entry) (now t : ℕ) → now ≤ t → expired e now ≡ true → expired e t ≡ true
unfolding expired
expired_mono e now t h x = ground arith

unexpired-keep :
    (now t : ℕ) (r : Option Entry)
    → now ≤ t
    → unexpired t (keep_value (λ e. not (expired e now)) r) ≡ unexpired t r
unexpired-keep now t none h = refl
unexpired-keep now t (some e) h = ground (arith, expired_mono e now t)

-- A sweep is invisible to every later read.
pub get-sweep :
    (now t : ℕ) (k : Str) (s : Store)
    → IsWellFormed s
    → now ≤ t
    → get t k (sweep now s).0 ≡ get t k s
unfolding get sweep
get-sweep now t k s w h = rw (sweep_loop-eq-keep now s.entries) (
    rw (lookup-keep (λ e. not (expired e now)) k s.entries w.distinct)
      (unexpired-keep now t (lookup k s.entries) h))

lookup-sweep :
    (now : ℕ) (k : Str) (s : Store) {e : Entry}
    → IsWellFormed s
    → lookup k s.entries ≡ some e
    → expired e now ≡ true
    → lookup k (sweep now s).0.entries ≡ none
unfolding sweep
lookup-sweep now k s {e} w held dead =
    rw (sweep_loop-eq-keep now s.entries)
      (rw (lookup-keep (λ e. not (expired e now)) k s.entries w.distinct) (rw held (rw dead)))

-- After the sweep of an expired entry its key is written with version 1 again, and any store that
-- still holds the swept entry, at a version above 1, refuses the new write and is left as it was.
pub rewrite_after_sweep_refused :
    (now at : ℕ) (value : Str) (ttl : ℤ) (s peer : Store) (old : Entry)
    → IsWellFormed s
    → lookup old.key s.entries ≡ some old
    → lookup old.key peer.entries ≡ some old
    → expired old now ≡ true
    → pos 1 <ℤ old.version
    → let e = (coordinator_write at old.key value ttl (sweep now s).0).1 in
      (e.version ≡ pos 1) × (apply e peer ≡ (peer, false))
unfolding coordinator_write next_version apply newer
rewrite_after_sweep_refused now at value ttl s peer old w held stale dead above =
    let gone = lookup-sweep now old.key s w held dead in (rw gone, rw (gone, stale) (ground arith))
