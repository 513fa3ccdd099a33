-- ===== src/Warehouse/Inventory/Conservation.antt =====
-- The goroutines of internal/warehouse/inventory.go as interleaved steps: each step is what one
-- of them does under its locks, and units that it has taken from one place and not yet put into
-- the other are in transit.
use quorum_market.Common.{
  ℕ, ◌+◌, ◌≡◌, refl, Option, none, some, List, [], ◌∷◌, ◌++◌, ℤ, arith, Str, lookup, IsDistinct,
}
use quorum_market.Warehouse.Items.{Item, Lines}
use quorum_market.Warehouse.Items.Merged.{units}
use quorum_market.Warehouse.Stock.{Stock, Failure, counters, shortage, locked_round}
use quorum_market.Warehouse.Stock.Units.{
  available, available-counters, available-restore, locked_round-units,
}
use quorum_market.Warehouse.Inventory.Holdings.{
  held, in_transit, taken, freed, freed_by, in_transit-append, open_request-keeps, conclude-held,
  release_mark-keeps, release_mark-held, ship_mark-keeps, ship_mark-held, sweep_loop-held,
}
use quorum_market.Warehouse.Inventory.{Inventory, new_inventory, open_request, conclude, give_back}
use quorum_market.Warehouse.Inventory.Settling.{release_mark, ship_mark, sweep_loop, sweep_mark}

pub record System : Type 0 where
  pub inv : Inventory
  pub transit : List Lines

-- For every product: in stock, held or shipped, and in transit make up the initial stock.
pub record IsConserved (s : System) : Type 0 where
  pub balance :
      (p : Str)
      → available s.inv.initial p s.inv.stock + held p s.inv.reservations + in_transit p s.transit
        ≡ s.inv.initial

-- The part of a round under all the locks.
abbrev pub lock : Inventory → Lines → Option Failure × Stock
lock inv ls = locked_round inv.initial ls inv.stock (shortage inv.initial ls inv.stock)

module _ (digest : Lines → Str) where
  pub data Step (s : System) : System → Type 0 where
    -- a request is answered from its receipt, refused, or leaves a receipt
    opened :
        (request_id : Str) (items : List Item)
        → Step s (record s { inv = (open_request digest request_id items s.inv).1 })
    -- the records of some products are made
    counted :
        (ls : Lines)
        → Step s (record s { inv = record s.inv { stock = counters s.inv.initial ls s.inv.stock } })
    -- a request for lines that each stand once goes through its locked round
    locked :
        (ls : Lines)
        → IsDistinct ls
        → Step s (record {
          inv = record s.inv { stock = (lock s.inv ls).1 };
          transit = taken (lock s.inv ls).0 ls s.transit;
        })
    -- a refused request leaves its receipt
    refused :
        (request_id dig id : Str) (ls : Lines) (now : ℕ) (f : Failure)
        → Step s (record s { inv = (conclude request_id dig ls id now (some f) s.inv).1 })
    -- a granted request records its reservation under a fresh id
    recorded :
        (request_id dig id : Str) (ls : Lines) (now : ℕ) (before after : List Lines)
        → s.transit ≡ before ++ ls ∷ after
        → lookup id s.inv.reservations ≡ none
        → Step s (record {
          inv = (conclude request_id dig ls id now none s.inv).1;
          transit = before ++ after;
        })
    released :
        (id : Str)
        → Step s (record {
          inv = (release_mark id s.inv).1;
          transit = freed (release_mark id s.inv).0 s.transit;
        })
    shipped :
        (now : ℕ) (id : Str) (ls : Lines)
        → Step s (record {
          inv = (ship_mark now id ls s.inv).1;
          transit = freed_by (ship_mark now id ls s.inv).0 s.transit;
        })
    swept :
        (now : ℕ)
        → Step s (record {
          inv = (sweep_mark now s.inv).1;
          transit = (sweep_mark now s.inv).0 ++ s.transit;
        })
    given_back :
        (ls : Lines) (before after : List Lines)
        → s.transit ≡ before ++ ls ∷ after
        → Step s (record { inv = give_back ls s.inv; transit = before ++ after })

  pub data Reach : System → Type 0 where
    start : (initial ttl : ℤ) → Reach (record { inv = new_inventory initial ttl; transit = [] })
    next : {s t : System} → Reach s → Step s t → Reach t

taken-in_transit :
    (p : Str) (o : Option Failure) (ls : Lines) (transit : List Lines)
    → in_transit p (taken o ls transit)
      ≡ (elim o [ none ↦ units p ls | some f ↦ 0 ]) + in_transit p transit
taken-in_transit p none ls transit = refl
taken-in_transit p (some f) ls transit = omega arith

without :
    (p : Str) (before : List Lines) (ls : Lines) (after : List Lines) (transit : List Lines)
    → transit ≡ before ++ ls ∷ after
    → in_transit p (before ++ after) + units p ls ≡ in_transit p transit
without p before ls after transit e =
    rw e (omega (arith, in_transit-append p before after, in_transit-append p before (ls ∷ after)))

Step-IsConserved :
    (digest : Lines → Str) {s t : System} → Step digest s t → IsConserved s → IsConserved t
unfolding conclude give_back sweep_mark
Step-IsConserved digest {s} (opened request_id items) c = record {
  balance = λ p. ground (arith, c.balance p, open_request-keeps digest request_id items s.inv);
}
Step-IsConserved digest {s} (counted ls) c = record {
  balance = λ p. rw (available-counters s.inv.initial p ls s.inv.stock) (c.balance p);
}
Step-IsConserved digest {s} (locked ls d) c = record {
  balance = λ p. omega (
    arith,
    c.balance p,
    locked_round-units s.inv.initial p ls s.inv.stock d,
    taken-in_transit p (lock s.inv ls).0 ls s.transit,
  );
}
Step-IsConserved digest {s} (refused request_id dig id ls now f) c = record { balance = c.balance }
Step-IsConserved digest {s} (recorded request_id dig id ls now before after e fresh) c = record {
  balance = λ p. omega (
    arith,
    c.balance p,
    without p before ls after s.transit e,
    conclude-held request_id dig id ls now s.inv p fresh,
  );
}
Step-IsConserved digest {s} (released id) c = record {
  balance = λ p.
      let (i, st) = release_mark-keeps id s.inv in
      rw (i, st) (omega (arith, c.balance p, release_mark-held id p s.inv s.transit));
}
Step-IsConserved digest {s} (shipped now id ls) c = record {
  balance = λ p.
      let (i, st) = ship_mark-keeps now id ls s.inv in
      rw (i, st) (omega (arith, c.balance p, ship_mark-held now id p ls s.inv s.transit));
}
Step-IsConserved digest {s} (swept now) c = record {
  balance = λ p. omega (
    arith,
    c.balance p,
    sweep_loop-held now p s.inv.reservations,
    in_transit-append p (sweep_loop now s.inv.reservations).1 s.transit,
  );
}
Step-IsConserved digest {s} (given_back ls before after e) c = record {
  balance = λ p. omega (
    arith,
    c.balance p,
    without p before ls after s.transit e,
    available-restore s.inv.initial p ls s.inv.stock,
  );
}

-- Through any interleaving of requests, releases, shipments and sweeps: of every product, what is
-- in stock, what reservations hold or have shipped, and what goroutines have in transit add up to
-- the initial stock.
pub Reach-IsConserved : (digest : Lines → Str) {s : System} → Reach digest s → IsConserved s
unfolding new_inventory lookup
Reach-IsConserved digest (start initial ttl) = record { balance = λ p. ground arith }
Reach-IsConserved digest (next {s} {t} r step) =
    Step-IsConserved digest step (Reach-IsConserved digest r)
