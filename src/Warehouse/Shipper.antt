-- ===== src/Warehouse/Shipper.antt =====
-- internal/warehouse/shipper.go: ship messages from the queue, applied to the inventory and
-- announced. internal/orders/orders.go has the message's type; its totals and its time, which the
-- shipper does not read, are left out. The JSON decoder, the clock and the event bus are parameters.
pub mod Messages
use quorum_market.Common.{
  ℕ, suc, ◌+◌, Bool, true, false, not, ◌||◌, ◌&&◌, Option, none, some, List, [], ◌∷◌, ◌++◌,
  if◌then◌else◌, Str, is_empty,
}
use quorum_market.Warehouse.Items.{Item}
use quorum_market.Warehouse.Inventory.{Inventory}
use quorum_market.Warehouse.Inventory.Settling.{ship, ShipOutcome, completed, duplicate, rejected}
use quorum_market.Rmq.Consumer.{Verdict, handled, unprocessable}

pub record ShipMessage : Type 0 where
  pub order_id : Str
  pub cart_id : Str
  pub customer_id : Str
  pub reservation_id : Str
  pub items : List Item

-- `events.OrderShippedData`
pub record ShippedData : Type 0 where
  pub order_id : Str
  pub customer_id : Str
  pub items : List Item
  pub outcome : ShipOutcome
  pub shipped_at : ℕ

-- The inventory, the events that the bus has taken, oldest first, and how many messages have been
-- handled.
pub record Depot : Type 0 where
  pub inventory : Inventory
  pub announced : List ShippedData
  pub ticks : ℕ

abbrev pub no_items : List Item → Bool
no_items [] = true
no_items (item ∷ items) = false

-- How the shipper is set up: `clock n` is the time of the `n`th message, and `is_up n` tells whether
-- the bus takes its event.
pub record Setup : Type 0 where
  pub decode : Str → Option ShipMessage
  pub has_events : Bool
  pub clock : ℕ → ℕ
  pub is_up : ℕ → Bool

unfoldable pub announce : Setup → ShipMessage → ShipOutcome → Depot → Depot
announce setup msg outcome depot =
    if not setup.has_events || is_empty msg.customer_id
    then depot
    else if setup.is_up depot.ticks
    then record depot {
      announced =
          depot.announced
          ++ (record {
            order_id = msg.order_id;
            customer_id = msg.customer_id;
            items = msg.items;
            outcome = outcome;
            shipped_at = setup.clock depot.ticks;
          }
              ∷ []);
    }
    else depot

after_ship : Setup → ShipMessage → Depot → ShipOutcome × Inventory → Verdict × Depot
unfolding announce
after_ship setup msg depot (rejected, inv) = (unprocessable, record depot { inventory = inv })
after_ship setup msg depot (duplicate, inv) = (handled, record depot { inventory = inv })
after_ship setup msg depot (completed, inv) =
    (handled, announce setup msg completed (record depot { inventory = inv }))

handle_message : Setup → Option ShipMessage → Depot → Verdict × Depot
unfolding after_ship
handle_message setup none depot = (unprocessable, depot)
handle_message setup (some msg) depot =
    if is_empty msg.reservation_id && no_items msg.items
    then (unprocessable, depot)
    else after_ship setup msg depot
        (ship (setup.clock depot.ticks) msg.reservation_id msg.items depot.inventory)

-- `Handle`
unfoldable pub handle_ship : Setup → Str → Depot → Verdict × Depot
unfolding handle_message
handle_ship setup body depot =
    let (verdict, depot') = handle_message setup (setup.decode body) depot in
    (verdict, record depot' { ticks = suc depot'.ticks })
