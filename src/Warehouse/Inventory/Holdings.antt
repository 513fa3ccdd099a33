-- ===== src/Warehouse/Inventory/Holdings.antt =====
-- What the steps of the inventory do to the units that reservations hold and that are in transit.
use quorum_market.Common.{
  ℕ, ◌+◌, ◌≡◌, refl, inl, inr, Option, none, some, List, [], ◌∷◌, ◌++◌, arith, if◌then◌else◌,
  Option-cases, Str, Assoc, lookup, insert,
}
use quorum_market.Warehouse.Items.{Item, Lines}
use quorum_market.Warehouse.Items.Merged.{units}
use quorum_market.Warehouse.Stock.{Failure}
use quorum_market.Warehouse.Inventory.{
  ReservationState, Reservation, Inventory, open_request, conclude, is_live,
}
use quorum_market.Warehouse.Inventory.Settling.{
  release_mark, Shipping, decided, lapsed, ship_mark, sweep_loop,
}

-- The units of a product that a reservation holds or has shipped.
abbrev pub weight : Str → Reservation → ℕ
weight p r = if is_live r.state then units p r.items else 0

abbrev pub held : Str → Assoc Reservation → ℕ
held p [] = 0
held p ((id, r) ∷ m) = weight p r + held p m

abbrev pub in_transit : Str → List Lines → ℕ
in_transit p [] = 0
in_transit p (ls ∷ rest) = units p ls + in_transit p rest

pub held-insert_new :
    (p id : Str) (r : Reservation) (m : Assoc Reservation)
    → lookup id m ≡ none
    → held p (insert id r m) ≡ held p m + weight p r
unfolding lookup insert
held-insert_new p id r [] h = omega arith
held-insert_new p id r ((j, s) ∷ m) h = ground (arith, held-insert_new p id r m)

pub held-insert_old :
    (p id : Str) (r s : Reservation) (m : Assoc Reservation)
    → lookup id m ≡ some s
    → held p (insert id r m) + weight p s ≡ held p m + weight p r
unfolding lookup insert
held-insert_old p id r s [] h = cc
held-insert_old p id r s ((j, t) ∷ m) h = ground (arith, held-insert_old p id r s m)

pub in_transit-append :
    (p : Str) (xs ys : List Lines) → in_transit p (xs ++ ys) ≡ in_transit p xs + in_transit p ys
in_transit-append p [] ys = omega arith
in_transit-append p (x ∷ xs) ys = omega (arith, in_transit-append p xs ys)

abbrev pub taken : Option Failure → Lines → List Lines → List Lines
taken none ls transit = ls ∷ transit
taken (some f) ls transit = transit

abbrev pub freed : Option Lines → List Lines → List Lines
freed none transit = transit
freed (some ls) transit = ls ∷ transit

abbrev pub freed_by : Shipping → List Lines → List Lines
freed_by (decided o) transit = transit
freed_by (lapsed ls) transit = ls ∷ transit

pub release_mark-keeps :
    (id : Str) (inv : Inventory)
    → let inv' = (release_mark id inv).1 in (inv'.initial ≡ inv.initial) × (inv'.stock ≡ inv.stock)
unfolding release_mark
release_mark-keeps id inv = ground arith

pub ship_mark-keeps :
    (now : ℕ) (id : Str) (ls : Lines) (inv : Inventory)
    → let inv' = (ship_mark now id ls inv).1 in
      (inv'.initial ≡ inv.initial) × (inv'.stock ≡ inv.stock)
unfolding ship_mark
ship_mark-keeps now id ls inv = ground arith

pub open_request-keeps :
    (digest : Lines → Str) (request_id : Str) (items : List Item) (inv : Inventory)
    → let inv' = (open_request digest request_id items inv).1 in
      (inv'.initial ≡ inv.initial)
      × (inv'.stock ≡ inv.stock)
      × (inv'.reservations ≡ inv.reservations)
unfolding open_request
open_request-keeps digest request_id items inv = ground arith

pub conclude-held :
    (request_id dig id : Str) (ls : Lines) (now : ℕ) (inv : Inventory) (p : Str)
    → lookup id inv.reservations ≡ none
    → held p (conclude request_id dig ls id now none inv).1.reservations
      ≡ held p inv.reservations + units p ls
unfolding conclude
conclude-held request_id dig id ls now inv p fresh =
    held-insert_new p id
      (record {
        id = id;
        request_id = request_id;
        state = ReservationState.reserved;
        items = ls;
        created_at = now;
        expires_at = now + inv.ttl;
      })
      inv.reservations fresh

pub release_mark-held :
    (id p : Str) (inv : Inventory) (transit : List Lines)
    → let (o, inv') = release_mark id inv in
      held p inv'.reservations + in_transit p (freed o transit)
      ≡ held p inv.reservations + in_transit p transit
unfolding release_mark
release_mark-held id p inv transit = elim (Option-cases (lookup id inv.reservations)) [
  | inl absent ↦ rw absent refl
  | inr (r, found) ↦ rw found (
      ground (
        arith,
        held-insert_old p id (record r { state = ReservationState.released }) r inv.reservations
            found,
      ))
]

pub ship_mark-held :
    (now : ℕ) (id p : Str) (ls : Lines) (inv : Inventory) (transit : List Lines)
    → let (o, inv') = ship_mark now id ls inv in
      held p inv'.reservations + in_transit p (freed_by o transit)
      ≡ held p inv.reservations + in_transit p transit
unfolding ship_mark
ship_mark-held now id p ls inv transit = elim (Option-cases (lookup id inv.reservations)) [
  | inl absent ↦ rw absent refl
  | inr (r, found) ↦ rw found (
      ground (
        arith,
        held-insert_old p id (record r { state = ReservationState.released }) r inv.reservations
            found,
        held-insert_old p id (record r { state = ReservationState.committed }) r inv.reservations
            found,
      ))
]

pub sweep_loop-held :
    (now : ℕ) (p : Str) (m : Assoc Reservation)
    → let (rest, stale) = sweep_loop now m in held p rest + in_transit p stale ≡ held p m
unfolding sweep_loop
sweep_loop-held now p [] = refl
sweep_loop-held now p ((id, r) ∷ m) = ground (arith, sweep_loop-held now p m)
