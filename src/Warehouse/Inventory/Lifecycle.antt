-- ===== src/Warehouse/Inventory/Lifecycle.antt =====
-- The states of a reservation through `Release` and `Ship` of internal/warehouse/inventory.go.
use quorum_market.Common.{
  ℕ, ◌≡◌, refl, ◌⊎◌, inl, inr, Bool-cases, true, false, some, List, arith, Option-cases, Str,
  str_eq_refl, lookup, lookup-insert,
}
use quorum_market.Httpx.Errors.{ok, Result-cases}
use quorum_market.Warehouse.Items.{Item, Lines, normalize, same_items}
use quorum_market.Warehouse.Inventory.{Reservation, ReservationState, Inventory}
use quorum_market.Warehouse.Inventory.Settling.{
  release, ship, ShipOutcome, completed, duplicate, rejected,
}

-- The reservation that is filed under the id is in the state.
abbrev pub InState : Str → ReservationState → Inventory → Type 0
InState id state inv = (r : Reservation) × (lookup id inv.reservations ≡ some r) × (r.state ≡ state)

release_leaves :
    (id : Str) (inv : Inventory)
    → (release id inv).0 ≡ true
    → InState id ReservationState.released (release id inv).1
unfolding release
release_leaves id inv h = elim (Option-cases (lookup id inv.reservations)) [
  | inl absent ↦ absurd (ground (arith, absent))
  | inr (r, found) ↦ (
    record r { state = ReservationState.released },
    ground (
      arith,
      found,
      lookup-insert id id (record r { state = ReservationState.released }) inv.reservations,
      str_eq_refl id,
    ),
    refl,
  )
]

release_again :
    (id : Str) (inv : Inventory)
    → InState id ReservationState.released inv
    → release id inv ≡ (false, inv)
unfolding release
release_again id inv (r, found, state) = ground (arith, found, state)

-- The effect of a shipment that is rejected.
abbrev pub IsRejection : Inventory → ShipOutcome × Inventory → Type 0
IsRejection inv out =
    (out.0 ≡ rejected) × (out.1.stock ≡ inv.stock) × (out.1.reservations ≡ inv.reservations)

ship_released :
    (now : ℕ) (id : Str) (items : List Item) (inv : Inventory)
    → InState id ReservationState.released inv
    → IsRejection inv (ship now id items inv)
unfolding ship
ship_released now id items inv (r, found, state) = elim (Result-cases (normalize items)) [
  | inl (ls, norm) ↦ (
    ground (arith, norm, found, state),
    ground (arith, norm, found, state),
    ground (arith, norm, found, state),
  )
  | inr (e, bad) ↦ (ground (arith, bad), ground (arith, bad), ground (arith, bad))
]

-- A reservation is released at most once: releasing it again answers false and changes nothing, and
-- shipping it afterwards is rejected and leaves the stock and the reservations as they are.
pub release_once :
    (later : ℕ) (id : Str) (items : List Item) (inv : Inventory)
    → (release id inv).0 ≡ true
    → let inv' = (release id inv).1 in
      (release id inv' ≡ (false, inv')) × IsRejection inv' (ship later id items inv')
release_once later id items inv h =
    let out = release_leaves id inv h in
    (release_again id (release id inv).1 out, ship_released later id items (release id inv).1 out)

ship_leaves :
    (now : ℕ) (id : Str) (items : List Item) (inv : Inventory)
    → (ship now id items inv).0 ≡ completed
    → (r : Reservation) × (lookup id (ship now id items inv).1.reservations ≡ some r)
      × (r.state ≡ ReservationState.committed)
      × ((ls : Lines) × (normalize items ≡ ok ls) × (same_items r.items ls ≡ true))
unfolding ship
ship_leaves now id items inv h = elim (Result-cases (normalize items)) [
  | inr (e, bad) ↦ absurd (ground (arith, bad))
  | inl (ls, norm) ↦ elim (Option-cases (lookup id inv.reservations)) [
    | inl absent ↦ absurd (ground (arith, norm, absent))
    | inr (r, found) ↦ (
      record r { state = ReservationState.committed },
      ground (
        arith,
        norm,
        found,
        lookup-insert id id (record r { state = ReservationState.committed }) inv.reservations,
        str_eq_refl id,
      ),
      refl,
      (ls, norm, ground (arith, norm, found)),
    )
  ]
]

ship_again :
    (now : ℕ) (id : Str) (items : List Item) (inv : Inventory) (r : Reservation) (ls : Lines)
    → lookup id inv.reservations ≡ some r
    → r.state ≡ ReservationState.committed
    → normalize items ≡ ok ls
    → same_items r.items ls ≡ true
    → ship now id items inv ≡ (duplicate, inv)
unfolding ship
ship_again now id items inv r ls found state norm same = ground (arith, found, state, norm, same)

release_committed :
    (id : Str) (inv : Inventory)
    → InState id ReservationState.committed inv
    → release id inv ≡ (false, inv)
unfolding release
release_committed id inv (r, found, state) = ground (arith, found, state)

-- A shipment is completed at most once: the same message, at any later time, is a duplicate that
-- changes nothing, and the reservation cannot be released any more.
pub ship_once :
    (now later : ℕ) (id : Str) (items : List Item) (inv : Inventory)
    → (ship now id items inv).0 ≡ completed
    → let inv' = (ship now id items inv).1 in
      (ship later id items inv' ≡ (duplicate, inv')) × (release id inv' ≡ (false, inv'))
ship_once now later id items inv h =
    let (r, found, state, matched) = ship_leaves now id items inv h in
    let (ls, norm, same) = matched in
    let inv' = (ship now id items inv).1 in
    (
      ship_again later id items inv' r ls found state norm same,
      release_committed id inv' (r, found, state),
    )

ReservationState-cases :
    (s : ReservationState)
    → (s ≡ ReservationState.reserved)
      ⊎ ((s ≡ ReservationState.committed) ⊎ (s ≡ ReservationState.released))
ReservationState-cases ReservationState.reserved = inl refl
ReservationState-cases ReservationState.committed = inr (inl refl)
ReservationState-cases ReservationState.released = inr (inr refl)

-- A shipment that is a duplicate changes nothing, and is one again at any later time.
pub ship_duplicate :
    (now later : ℕ) (id : Str) (items : List Item) (inv : Inventory)
    → (ship now id items inv).0 ≡ duplicate
    → (ship now id items inv ≡ (duplicate, inv)) × (ship later id items inv ≡ (duplicate, inv))
unfolding ship
ship_duplicate now later id items inv h = elim (Result-cases (normalize items)) [
  | inr (e, bad) ↦ absurd (ground (arith, bad))
  | inl (ls, norm) ↦ elim (Option-cases (lookup id inv.reservations)) [
    | inl absent ↦ absurd (ground (arith, norm, absent))
    | inr (r, found) ↦ elim (Bool-cases (same_items r.items ls)) [
      | inr differ ↦ absurd (ground (arith, norm, found, differ))
      | inl same ↦ elim (ReservationState-cases r.state) [
        | inl state ↦ absurd (ground (arith, norm, found, same, state, h))
        | inr (inl state) ↦
            (ground (arith, norm, found, same, state), ground (arith, norm, found, same, state))
        | inr (inr state) ↦ absurd (ground (arith, norm, found, same, state, h))
      ]
    ]
  ]
]
