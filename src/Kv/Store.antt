-- ===== src/Kv/Store.antt =====
-- internal/kv/store.go: the versioned map of one node. Each method takes the time that it reads
-- from the clock. The map's entries stand in the order of an association list; `Scan`, whose result
-- can depend on the order in which `range` walks the map, takes that order as an argument.
pub mod Apply
pub mod Convergence
pub mod Invariant
pub mod Expiry
pub mod Scan
mod Tests
use quorum_market.Common.{
  ℕ, zero, suc, ◌+◌, Bool, true, false, not, ◌||◌, Option, none, some, List, [], ◌∷◌, ℤ, pos,
  pos_part, ltb_ℤ, leb_ℤ, suc_i64, if◌then◌else◌, Str, has_prefix, str_lt, Assoc, lookup, insert,
}
use quorum_market.Kv.Entry.{Entry, unix_milli, newer, expired}

pub record Store : Type 0 where
  pub entries : Assoc Entry
  pub node_id : Str

abbrev pub new_store : Str → Store
new_store node_id = record { entries = []; node_id = node_id }

abbrev pub unexpired : ℕ → Option Entry → Option Entry
unexpired now none = none
unexpired now (some e) = if expired e now then none else some e

unfoldable pub get : ℕ → Str → Store → Option Entry
get now key s = unexpired now (lookup key s.entries)

-- The version that the next write of a key takes.
unfoldable pub next_version : Option Entry → ℤ
next_version none = pos 1
next_version (some prev) = suc_i64 prev.version

-- `ttl` is a `time.Duration`, in nanoseconds.
unfoldable pub coordinator_write : ℕ → Str → Str → ℤ → Store → Store × Entry
unfolding next_version
coordinator_write now key value ttl s =
    let expires_at = if ltb_ℤ (pos 0) ttl then pos (unix_milli (now + pos_part ttl)) else pos 0 in
    let e : Entry = record {
      key = key;
      value = value;
      version = next_version (lookup key s.entries);
      origin = s.node_id;
      expires_at = expires_at;
    } in
    (record s { entries = insert key e s.entries }, e)

-- `ok && !e.Newer(prev)`
unfoldable pub refuses : Option Entry → Entry → Bool
refuses none e = false
refuses (some prev) e = not (newer e prev)

unfoldable pub apply : Entry → Store → Store × Bool
unfolding refuses
apply e s =
    if refuses (lookup e.key s.entries) e
    then (s, false)
    else (record s { entries = insert e.key e s.entries }, true)

count_live : ℕ → Assoc Entry → ℕ
count_live now [] = 0
count_live now ((k, e) ∷ m) =
    let rest = count_live now m in if not (expired e now) then suc rest else rest

unfoldable pub len : ℕ → Store → ℕ
unfolding count_live
len now s = count_live now s.entries

-- `sort.Slice` by key
unfoldable pub insert_by_key : Entry → List Entry → List Entry
insert_by_key e [] = e ∷ []
insert_by_key e (x ∷ xs) = if str_lt x.key e.key then x ∷ insert_by_key e xs else e ∷ x ∷ xs

unfoldable pub sort_by_key : List Entry → List Entry
unfolding insert_by_key
sort_by_key [] = []
sort_by_key (x ∷ xs) = insert_by_key x (sort_by_key xs)

-- `walk` holds the pairs of the map in the order in which `range` yields them, and `room` how many
-- entries `out` may still take.
unfoldable pub scan_loop : ℕ → Str → ℕ → Assoc Entry → List Entry
scan_loop now prefix room [] = []
scan_loop now prefix zero (p ∷ walk) = []
scan_loop now prefix (suc room) ((key, entry) ∷ walk) =
    let kept = entry ∷ scan_loop now prefix room walk in
    let skipped = scan_loop now prefix (suc room) walk in
    if not (has_prefix key prefix) || expired entry now then skipped else kept

unfoldable pub scan : ℕ → Assoc Entry → Str → ℤ → List Entry
unfolding scan_loop sort_by_key
scan now walk prefix limit =
    let room = if leb_ℤ limit (pos 0) then 1000 else pos_part limit in
    sort_by_key (scan_loop now prefix room walk)

-- The loop of `Sweep`: what it leaves in the map, and how many entries it deletes.
unfoldable pub sweep_loop : ℕ → Assoc Entry → Assoc Entry × ℕ
sweep_loop now [] = ([], 0)
sweep_loop now ((k, e) ∷ m) =
    let (rest, removed) = sweep_loop now m in
    if expired e now then (rest, suc removed) else ((k, e) ∷ rest, removed)

unfoldable pub sweep : ℕ → Store → Store × ℕ
unfolding sweep_loop
sweep now s =
    let (rest, removed) = sweep_loop now s.entries in (record s { entries = rest }, removed)

-- A sequence of replicated entries, as the node receives them.
unfoldable pub apply_all : List Entry → Store → Store
apply_all [] s = s
apply_all (e ∷ es) s = apply_all es (apply e s).0
