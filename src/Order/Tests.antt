-- ===== src/Order/Tests.antt =====
-- Orders on concrete inputs. The floats are natural numbers here.
use quorum_market.Common.{ℕ, ◌≡◌, refl, some, [], ◌∷◌, bytes, is_empty, Assoc, lookup}
use quorum_market.Order.{
  Order, PlacedData, ShippedData, blank_order, handle_placed, handle_shipped, status_placed,
  status_shipped,
}
use quorum_market.Order.Events.{no_faults, forget, placed_shipped_commute}

abbrev placed : PlacedData ℕ
placed = record {
  order_id = bytes "o";
  cart_id = bytes "cart";
  customer_id = bytes "c";
  items = [];
  total_price = 12;
  total_weight = 3;
  placed_at = some 100;
}

abbrev shipped : ShippedData
shipped = record {
  order_id = bytes "o";
  customer_id = bytes "c";
  items = [];
  shipped_at = some 200;
}

abbrev known : Order ℕ
known = record (blank_order 0 (bytes "o") (bytes "c")) {
  status = status_placed;
  placed_at = some 100;
}

abbrev gone : Order ℕ
gone = record known { status = status_shipped }

abbrev holding : Order ℕ → Assoc (Order ℕ)
holding o = (bytes "order:c:o", o) ∷ []

abbrev nothing : Assoc (Order ℕ)
nothing = []

placed_shipped_commute_example :
    forget 0 (
      lookup
        (bytes "order:c:o")
        (handle_shipped 0 2 no_faults shipped (handle_placed 0 1 no_faults placed nothing).1).1)
    ≡ forget 0 (
        lookup
          (bytes "order:c:o")
          (handle_placed 0 4 no_faults placed (handle_shipped 0 3 no_faults shipped nothing).1).1)
unfolding is_empty lookup
placed_shipped_commute_example =
    placed_shipped_commute 0 1 2 3 4 placed shipped nothing (bytes "order:c:o") refl refl refl refl
      tt
