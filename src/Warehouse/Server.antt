-- ===== src/Warehouse/Server.antt =====
-- internal/warehouse/server.go and client.go: the handlers around the inventory and a service's calls of
-- them. A body is what JSON decodes, or its error; the stats and the simulated delay are left out.
pub mod Answers
use quorum_market.Common.{
  ℕ, Bool, true, false, Option, none, some, List, if◌then◌else◌, Str, bytes, is_empty, ◌≡◌,
}
use quorum_market.Httpx.Errors.{Error, errorf, plain, Result, ok, err}
use quorum_market.Warehouse.Items.{Item, Lines}
use quorum_market.Warehouse.Stock.{Round, Failure, api, insufficient, stock_of, counter}
use quorum_market.Warehouse.Inventory.{
  Inventory, Reservation, ReservationState, reserved, committed, released, Outcome, granted, failed,
  waiting, reserve_with_request_id,
}
use quorum_market.Warehouse.Inventory.Settling.{release}

pub record ReserveRequest : Type 0 where
  pub request_id : Str
  pub items : List Item

pub record ReserveResponse : Type 0 where
  pub request_id : Str
  pub reservation_id : Str
  pub status : Str
  pub expires_at : ℕ

-- `handleInventory`: the units, and the inventory, which has a counter of the product from then on
unfoldable pub handle_inventory : Str → Inventory → Result ℕ × Inventory
handle_inventory product_id inv = if is_empty product_id then (err (errorf 400), inv) else (
  ok (stock_of inv.initial product_id inv.stock).quantity,
  record inv { stock = counter inv.initial product_id inv.stock },
)

abbrev pub state_name : ReservationState → Str
state_name reserved = bytes "reserved"
state_name committed = bytes "committed"
state_name released = bytes "released"

-- The answer to a reservation, `none` while it blocks on an equal request. A shortage is a response
-- with status 409.
unfoldable pub reserve_answer : Outcome → Option (Result ReserveResponse)
reserve_answer (granted r) = some (
    ok (record {
      request_id = r.request_id;
      reservation_id = r.id;
      status = state_name r.state;
      expires_at = r.expires_at;
    }))
reserve_answer (failed (api status)) = some (err (errorf status))
reserve_answer (failed (insufficient id available wanted)) = some (err (errorf 409))
reserve_answer waiting = none

module _ (digest : Lines → Str) where
  -- `handleReserve`
  unfoldable pub handle_reserve :
      Str
      → ℕ
      → List Round
      → Result ReserveRequest
      → Inventory
      → Option (Result ReserveResponse) × Inventory
  unfolding reserve_answer
  handle_reserve id now rounds (err e) inv = (some (err e), inv)
  handle_reserve id now rounds (ok req) inv =
      let (o, inv') = reserve_with_request_id digest req.request_id req.items id now rounds inv in
      (reserve_answer o, inv')

-- `handleRelease`: whether the reservation was held, and the inventory
unfoldable pub handle_release : Result Str → Inventory → Result Bool × Inventory
handle_release (err e) inv = (err e, inv)
handle_release (ok id) inv =
    if is_empty id
    then (err (errorf 400), inv)
    else let (was_held, inv') = release id inv in (ok was_held, inv')
