-- ===== src/Warehouse/Inventory/Settling.antt =====
-- internal/warehouse/inventory.go: what becomes of a reservation: Release, Ship and Sweep.
pub mod Repeats
use quorum_market.Common.{
  ℕ, suc, Bool, true, false, not, ◌||◌, ◌&&◌, Option, none, some, List, [], ◌∷◌, ltb, if◌then◌else◌,
  length, Str, Assoc, lookup, insert,
}
use quorum_market.Httpx.Errors.{ok, err}
use quorum_market.Warehouse.Items.{Item, Lines, normalize, same_items}
use quorum_market.Warehouse.Inventory.{
  Inventory, Reservation, ReservationState, committed, released, add_u64, is_reserved, is_live,
  give_back,
}

-- The reservation that the map holds under `id` changes its state.
set_state : Str → ReservationState → Reservation → Inventory → Inventory
set_state id state r inv = record inv {
  reservations = insert id (record r { state = state }) inv.reservations;
}

-- The locked part of `Release`: the lines to give back.
release_found : Str → Option Reservation → Inventory → Option Lines × Inventory
unfolding set_state
release_found id none inv = (none, inv)
release_found id (some r) inv =
    if is_reserved r.state then (some r.items, set_state id released r inv) else (none, inv)

unfoldable pub release_mark : Str → Inventory → Option Lines × Inventory
unfolding release_found
release_mark id inv = release_found id (lookup id inv.reservations) inv

release_rest : Option Lines × Inventory → Bool × Inventory
unfolding give_back
release_rest (none, inv) = (false, inv)
release_rest (some ls, inv) =
    let inv' = give_back ls inv in
    (true, record inv' { released_count = add_u64 inv'.released_count 1 })

unfoldable pub release : Str → Inventory → Bool × Inventory
unfolding release_mark release_rest
release id inv = release_rest (release_mark id inv)

pub data ShipOutcome : Type 0 where
  completed duplicate rejected : ShipOutcome

-- What the locked part of `Ship` decides, with the lines to give back.
pub data Shipping : Type 0 where
  decided : ShipOutcome → Shipping
  lapsed : Lines → Shipping

abbrev is_committed : ReservationState → Bool
is_committed committed = true
is_committed _ = false

ship_found : ℕ → Str → Lines → Option Reservation → Inventory → Shipping × Inventory
unfolding set_state
ship_found now id ls none inv = (decided rejected, inv)
ship_found now id ls (some r) inv =
    if not (same_items r.items ls) || not (is_live r.state)
    then (decided rejected, inv)
    else if is_committed r.state
    then (decided duplicate, inv)
    else if not (ltb now r.expires_at)
    then (lapsed r.items, set_state id released r inv)
    else (decided completed, set_state id committed r inv)

unfoldable pub ship_mark : ℕ → Str → Lines → Inventory → Shipping × Inventory
unfolding ship_found
ship_mark now id ls inv = ship_found now id ls (lookup id inv.reservations) inv

ship_rest : Shipping × Inventory → ShipOutcome × Inventory
unfolding give_back
ship_rest (decided completed, inv) =
    (completed, record inv { shipped_count = add_u64 inv.shipped_count 1 })
ship_rest (decided duplicate, inv) = (duplicate, inv)
ship_rest (decided rejected, inv) = (rejected, record inv { late_ships = add_u64 inv.late_ships 1 })
ship_rest (lapsed ls, inv) =
    let inv' = give_back ls inv in
    (
      rejected,
      record inv' {
        expired_count = add_u64 inv'.expired_count 1;
        late_ships = add_u64 inv'.late_ships 1;
      },
    )

unfoldable pub ship : ℕ → Str → List Item → Inventory → ShipOutcome × Inventory
unfolding ship_mark ship_rest
ship now id items inv = elim (normalize items) [
  | err e ↦ (rejected, record inv { late_ships = add_u64 inv.late_ships 1 })
  | ok ls ↦ ship_rest (ship_mark now id ls inv)
]

-- A pending hold whose time has run out.
abbrev pub is_stale : ℕ → Reservation → Bool
is_stale now r = is_reserved r.state && not (ltb now r.expires_at)

-- The loop of `Sweep`, under the lock: the reservations, and the lines of those it released.
unfoldable pub sweep_loop : ℕ → Assoc Reservation → Assoc Reservation × List Lines
sweep_loop now [] = ([], [])
sweep_loop now ((id, r) ∷ m) =
    let (rest, stale) = sweep_loop now m in
    if is_stale now r
    then ((id, record r { state = released }) ∷ rest, r.items ∷ stale)
    else ((id, r) ∷ rest, stale)

unfoldable pub sweep_mark : ℕ → Inventory → List Lines × Inventory
unfolding sweep_loop
sweep_mark now inv =
    let (rest, stale) = sweep_loop now inv.reservations in
    (stale, record inv { reservations = rest })

give_back_all : List Lines → Inventory → Inventory
unfolding give_back
give_back_all [] inv = inv
give_back_all (ls ∷ rest) inv = give_back_all rest (give_back ls inv)

unfoldable pub sweep : ℕ → Inventory → ℕ × Inventory
unfolding sweep_mark give_back_all
sweep now inv =
    let (stale, inv') = sweep_mark now inv in
    let inv'' = give_back_all stale inv' in
    (length stale, record inv'' { expired_count = add_u64 inv''.expired_count (length stale) })

unfoldable pub pending_reservations : Assoc Reservation → ℕ
pending_reservations [] = 0
pending_reservations ((id, r) ∷ m) =
    let rest = pending_reservations m in if is_reserved r.state then suc rest else rest
