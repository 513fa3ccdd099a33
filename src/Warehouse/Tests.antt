-- ===== src/Warehouse/Tests.antt =====
-- The inventory on concrete inputs.
use quorum_market.Common.{
  ◌≡◌, ◌≢◌, ◌+◌, suc, some, refl, true, none, List, [], ◌∷◌, pos, Str, bytes, is_empty, str_eq,
  lookup, insert,
}
use quorum_market.Warehouse.Items.{Item, Lines, normalize, same_items}
use quorum_market.Warehouse.Stock.{Round, reserve_stock, locked_round, shortage, deduct}
use quorum_market.Warehouse.Inventory.{
  Reservation, ReservationState, Receipt, Inventory, granted, new_inventory, conclude,
  valid_request_id, reserve_with_request_id,
}
use quorum_market.Warehouse.Inventory.Settling.{ship}
use quorum_market.Warehouse.Inventory.Conservation.{
  System, Step, Reach, IsConserved, lock, Reach-IsConserved,
}
use quorum_market.Warehouse.Shipper.{ShipMessage, Setup, Depot, handle_ship}
use quorum_market.Warehouse.Shipper.Messages.{shipment_redelivered}
use quorum_market.Rmq.Consumer.{handled}
use quorum_market.Warehouse.Inventory.Holdings.{taken}
use quorum_market.Warehouse.Inventory.Receipts.{reserve_replays}

abbrev tea : Str
tea = bytes "tea"

abbrev two_teas : List Item
two_teas =
    record { product_id = tea; quantity = pos 1 }
    ∷ record { product_id = tea; quantity = pos 1 }
    ∷ []

abbrev lines : Lines
lines = (tea, 2) ∷ []

-- a digest for lines of one product
abbrev digest : Lines → Str
digest [] = []
digest ((p, q) ∷ ls) = q ∷ p

abbrev quiet : Round
quiet = record { versions = 0 ∷ []; meanwhile = λ s. s }

abbrev fresh : Inventory
fresh = record {
  initial = 10;
  ttl = 1000;
  stock = [];
  reservations = [];
  receipts = [];
  reserved_count = 0;
  rejected_count = 0;
  released_count = 0;
  expired_count = 0;
  shipped_count = 0;
  late_ships = 0;
}

abbrev hold : Reservation
hold = record {
  id = bytes "r1";
  request_id = bytes "req";
  state = ReservationState.reserved;
  items = lines;
  created_at = 5;
  expires_at = 1005;
}

abbrev holding : Inventory
holding = record fresh { reservations = (bytes "r1", hold) ∷ [] }

abbrev receipt : Receipt
receipt = record { digest = digest lines; done = true; reservation_id = bytes "r1"; failure = none }

abbrev answered_before : Inventory
answered_before = record fresh { receipts = (bytes "req", receipt) ∷ [] }

reserve_replays_example :
    let inv' =
      (reserve_with_request_id digest (bytes "req") two_teas (bytes "r1") 5 (quiet ∷ []) fresh).1 in
    reserve_with_request_id digest (bytes "req") two_teas (bytes "r2") 9 [] inv'
    ≡ (granted hold, inv')
unfolding reserve_with_request_id normalize valid_request_id reserve_stock lookup insert str_eq
    is_empty
reserve_replays_example =
    reserve_replays digest (bytes "req") two_teas (bytes "r1") (bytes "r2") 5 9 (quiet ∷ []) []
      fresh hold refl refl

three-ne-two : digest lines ≢ digest ((tea, 3) ∷ [])
three-ne-two e = cc

-- The units of a request are taken and recorded.
abbrev begun : System
begun = record { inv = new_inventory (pos 10) (pos 0); transit = [] }

abbrev took : System
took = record {
  inv = record begun.inv { stock = (lock begun.inv lines).1 };
  transit = taken (lock begun.inv lines).0 lines begun.transit;
}

abbrev granted_hold : System
granted_hold = record {
  inv = (conclude (bytes "req") (digest lines) lines (bytes "r1") 5 none took.inv).1;
  transit = [];
}

a_reservation : Reach digest granted_hold
unfolding new_inventory shortage deduct lookup locked_round
a_reservation =
    Reach.next (Reach.next (Reach.start (pos 10) (pos 0)) (Step.locked lines (refl, tt)))
      (Step.recorded (bytes "req") (digest lines) (bytes "r1") lines 5 [] [] refl refl)

Reach-IsConserved_example : IsConserved granted_hold
Reach-IsConserved_example = Reach-IsConserved digest a_reservation

abbrev ship_two : ShipMessage
ship_two = record {
  order_id = bytes "o1";
  cart_id = bytes "cart-c";
  customer_id = bytes "c";
  reservation_id = bytes "r1";
  items = two_teas;
}

abbrev setup : Setup
setup = record {
  decode = λ body. some ship_two;
  has_events = true;
  clock = λ n. 9 + n;
  is_up = λ n. true;
}

abbrev depot : Depot
depot = record { inventory = holding; announced = []; ticks = 0 }

shipment_redelivered_example :
    let depot' = (handle_ship setup (bytes "{}") depot).1 in
    handle_ship setup (bytes "{}") depot' ≡ (handled, record depot' { ticks = suc depot'.ticks })
unfolding handle_ship is_empty ship normalize lookup insert str_eq same_items
shipment_redelivered_example = shipment_redelivered setup (bytes "{}") depot refl
