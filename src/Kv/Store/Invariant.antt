-- ===== src/Kv/Store/Invariant.antt =====
-- The well-formedness of the map of internal/kv/store.go, through its methods.
use quorum_market.Common.{
  ℕ, ◌≡◌, refl, not, inl, inr, arith, ℤ, Bool-cases, Str, List, [], ◌∷◌, Assoc, lookup, insert,
  IsDistinct, AllPairs, insert-IsDistinct, insert-AllPairs, keep, keep-IsDistinct, keep-AllPairs,
}
use quorum_market.Kv.Entry.{Entry, expired}
use quorum_market.Kv.Store.{Store, new_store, coordinator_write, refuses, apply, sweep_loop, sweep}

abbrev pub FiledUnder : Str → Entry → Type 0
FiledUnder k e = e.key ≡ k

pub record IsWellFormed (s : Store) : Type 0 where
  pub distinct : IsDistinct s.entries
  pub filed : AllPairs FiledUnder s.entries

pub new_store-IsWellFormed : (node_id : Str) → IsWellFormed (new_store node_id)
new_store-IsWellFormed node_id = record { distinct = tt; filed = tt }

pub insert-IsWellFormed :
    (s : Store) (e : Entry)
    → IsWellFormed s
    → IsWellFormed (record s { entries = insert e.key e s.entries })
insert-IsWellFormed s e w = record {
  distinct = insert-IsDistinct e.key e s.entries w.distinct;
  filed = insert-AllPairs FiledUnder e.key e s.entries refl w.filed;
}

pub coordinator_write-IsWellFormed :
    (now : ℕ) (key value : Str) (ttl : ℤ) (s : Store)
    → IsWellFormed s
    → IsWellFormed (coordinator_write now key value ttl s).0
unfolding coordinator_write
coordinator_write-IsWellFormed now key value ttl s w =
    insert-IsWellFormed s (coordinator_write now key value ttl s).1 w

pub apply-IsWellFormed : (e : Entry) (s : Store) → IsWellFormed s → IsWellFormed (apply e s).0
unfolding apply
apply-IsWellFormed e s w = elim (Bool-cases (refuses (lookup e.key s.entries) e)) [
  | inl stale ↦ rw stale w
  | inr fresh ↦ rw fresh (insert-IsWellFormed s e w)
]

-- What `Sweep` leaves is the pairs that have not expired.
pub sweep_loop-eq-keep :
    (now : ℕ) (m : Assoc Entry) → (sweep_loop now m).0 ≡ keep (λ e. not (expired e now)) m
unfolding sweep_loop keep
sweep_loop-eq-keep now [] = refl
sweep_loop-eq-keep now ((k, e) ∷ m) = ground (arith, sweep_loop-eq-keep now m)

pub sweep-IsWellFormed : (now : ℕ) (s : Store) → IsWellFormed s → IsWellFormed (sweep now s).0
unfolding sweep
sweep-IsWellFormed now s w = record {
  distinct =
      rw (sweep_loop-eq-keep now s.entries)
        (keep-IsDistinct (λ e. not (expired e now)) s.entries w.distinct);
  filed =
      rw (sweep_loop-eq-keep now s.entries)
        (keep-AllPairs FiledUnder (λ e. not (expired e now)) s.entries w.filed);
}

-- One method that changes the store, with its arguments.
pub data Change : Type 0 where
  write : ℕ → Str → Str → ℤ → Change
  receive : Entry → Change
  clean : ℕ → Change

abbrev pub change : Change → Store → Store
change (write now key value ttl) s = (coordinator_write now key value ttl s).0
change (receive e) s = (apply e s).0
change (clean now) s = (sweep now s).0

abbrev pub changes : List Change → Store → Store
changes [] s = s
changes (c ∷ cs) s = changes cs (change c s)

change-IsWellFormed : (c : Change) (s : Store) → IsWellFormed s → IsWellFormed (change c s)
change-IsWellFormed (write now key value ttl) s w =
    coordinator_write-IsWellFormed now key value ttl s w
change-IsWellFormed (receive e) s w = apply-IsWellFormed e s w
change-IsWellFormed (clean now) s w = sweep-IsWellFormed now s w

-- After any writes, replicated entries and sweeps, in any order, the map of a well-formed store has
-- every key once and every entry under its own key.
pub changes-IsWellFormed :
    (cs : List Change) (s : Store) → IsWellFormed s → IsWellFormed (changes cs s)
changes-IsWellFormed [] s w = w
changes-IsWellFormed (c ∷ cs) s w = changes-IsWellFormed cs (change c s) (change-IsWellFormed c s w)
