-- ===== src/Kv/Store/Tests.antt =====
-- The store of one node on concrete inputs.
use quorum_market.Common.{
  ℕ, ◌≡◌, refl, false, List, [], ◌∷◌, arith, ℤ, pos, Str, bytes, str_eq, lookup, if◌then◌else◌,
  eqb_ℤ, Memᴰ, Assoc,
}
use quorum_market.Kv.Entry.{Entry, expired}
use quorum_market.Kv.Store.{Store, new_store, coordinator_write, apply, apply_all, sweep}
use quorum_market.Kv.Store.Convergence.{replicas_converge}
use quorum_market.Kv.Store.Invariant.{IsWellFormed}
use quorum_market.Kv.Store.Expiry.{rewrite_after_sweep_refused}

abbrev key : Str
key = bytes "k"

abbrev second : ℕ
second = 1000000000

abbrev empty_a : Store
empty_a = new_store (bytes "a")

abbrev first_write : Entry
first_write = record {
  key = key;
  value = bytes "one";
  version = pos 1;
  origin = bytes "a";
  expires_at = pos 0;
}

abbrev second_write : Entry
second_write = record first_write { value = bytes "two"; version = pos 2 }

abbrev holding : Entry → Store
holding e = record { entries = (key, e) ∷ []; node_id = bytes "a" }

-- an entry that expires one second after the epoch
abbrev short_lived : Entry
short_lived = record second_write { expires_at = pos 1000 }

-- both writes arrive at one node in order, and at another the other way round with a repetition
abbrev in_order : List Entry
in_order = first_write ∷ second_write ∷ []

abbrev reordered : List Entry
reordered = second_write ∷ first_write ∷ second_write ∷ []

abbrev the_write : Str → ℤ → Str → Entry
the_write k v origin = record {
  key = k;
  value = if eqb_ℤ v (pos 1) then bytes "one" else bytes "two";
  version = v;
  origin = origin;
  expires_at = pos 0;
}

in_order-reordered : (e : Entry) → Memᴰ e in_order → Memᴰ e reordered
in_order-reordered e (Memᴰ.head p) = Memᴰ.tail (Memᴰ.head p)
in_order-reordered e (Memᴰ.tail (Memᴰ.head p)) = Memᴰ.head p
in_order-reordered e (Memᴰ.tail (Memᴰ.tail m)) = elim m [ ]

reordered-in_order : (e : Entry) → Memᴰ e reordered → Memᴰ e in_order
reordered-in_order e (Memᴰ.head p) = Memᴰ.tail (Memᴰ.head p)
reordered-in_order e (Memᴰ.tail (Memᴰ.head p)) = Memᴰ.head p
reordered-in_order e (Memᴰ.tail (Memᴰ.tail (Memᴰ.head p))) = Memᴰ.tail (Memᴰ.head p)
reordered-in_order e (Memᴰ.tail (Memᴰ.tail (Memᴰ.tail m))) = elim m [ ]

replicas_converge_example :
    lookup key (apply_all in_order empty_a).entries
    ≡ lookup key (apply_all reordered (new_store (bytes "b"))).entries
replicas_converge_example =
    replicas_converge the_write (bytes "a") (bytes "b") in_order reordered in_order-reordered
      reordered-in_order (refl, (refl, tt)) key

holding-IsWellFormed : (e : Entry) → e.key ≡ key → IsWellFormed (holding e)
unfolding lookup
holding-IsWellFormed e h = record { distinct = (refl, tt); filed = (h, tt) }

rewrite_after_sweep_refused_example :
    let e =
      (coordinator_write 2000000000 key
        (bytes "new")
        (pos 0)
        (sweep 2000000000 (holding short_lived)).0).1 in
    (e.version ≡ pos 1) × (apply e (holding short_lived) ≡ (holding short_lived, false))
unfolding lookup str_eq expired
rewrite_after_sweep_refused_example =
    rewrite_after_sweep_refused 2000000000 2000000000 (bytes "new") (pos 0) (holding short_lived)
      (holding short_lived) short_lived (holding-IsWellFormed short_lived refl) refl refl refl
      (ground arith)

abbrev walk : Assoc Entry
walk =
    (bytes "kb", record first_write { key = bytes "kb" })
    ∷ (bytes "x", record first_write { key = bytes "x" })
    ∷ (bytes "ka", record first_write { key = bytes "ka" })
    ∷ []
