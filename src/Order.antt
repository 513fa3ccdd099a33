-- ===== src/Order.antt =====
-- internal/order/order.go: the lifecycle of a placed order, driven by events. The store is a map
-- from (customer, order) keys to records; a record is read back as it was written. Floats are a
-- type that the code only copies. `Faults` says which calls of the store fail.
pub mod Events
pub mod Redelivery
pub mod Cancellation
pub mod Listing
pub mod Server
mod Tests
use quorum_market.Common.{
  ℕ, Bool, true, false, not, ◌||◌, ◌&&◌, Option, none, some, List, [], ◌∷◌, ◌++◌, if◌then◌else◌,
  Str, bytes, is_empty, str_eq, Assoc, lookup, insert,
}
use quorum_market.Warehouse.Items.{Item}
use quorum_market.Httpx.Errors.{Error, errorf, wrap, plain, Result, ok, err}

abbrev pub status_placed : Str
status_placed = bytes "placed"

abbrev pub status_shipped : Str
status_shipped = bytes "shipped"

abbrev pub status_cancelled : Str
status_cancelled = bytes "cancelled"

-- A zero time is `none`.
pub record Order (F : Type 0) : Type 0 where
  pub order_id : Str
  pub customer_id : Str
  pub cart_id : Str
  pub status : Str
  pub items : List Item
  pub total_price : F
  pub total_weight : F
  pub placed_at : Option ℕ
  pub shipped_at : Option ℕ
  pub cancelled_at : Option ℕ
  pub cancel_reason : Str
  pub updated_at : ℕ
  pub awaiting_details : Bool

-- `events.OrderPlacedData`, `events.OrderShippedData`
pub record PlacedData (F : Type 0) : Type 0 where
  pub order_id : Str
  pub cart_id : Str
  pub customer_id : Str
  pub items : List Item
  pub total_price : F
  pub total_weight : F
  pub placed_at : Option ℕ

pub record ShippedData : Type 0 where
  pub order_id : Str
  pub customer_id : Str
  pub items : List Item
  pub shipped_at : Option ℕ

pub record Faults : Type 0 where
  pub get_error : Option Error
  pub put_error : Option Error

-- `Key`
unfoldable pub order_key : Str → Str → Str
order_key customer_id order_id = bytes "order:" ++ (customer_id ++ (bytes ":" ++ order_id))

module _ {F : Type 0} where
  unfoldable pub cancellable : Order F → Bool
  cancellable o = str_eq o.status status_placed

  unfoldable pub has_details : Order F → Bool
  has_details o = elim o.placed_at [ none ↦ false | some t ↦ true ]

  unfoldable pub load : Faults → Str → Str → Assoc (Order F) → Result (Option (Order F))
  load faults customer_id order_id db = elim faults.get_error [
    | some e ↦ err (wrap 503 e)
    | none ↦ ok (lookup (order_key customer_id order_id) db)
  ]

  -- The error of `save`, and the store after it.
  unfoldable pub save : Faults → Order F → Assoc (Order F) → Option Error × Assoc (Order F)
  unfolding has_details
  save faults o db =
      let o' = record o { awaiting_details = not (has_details o) } in
      elim faults.put_error [
        | some e ↦ (some (wrap 503 e), db)
        | none ↦ (none, insert (order_key o'.customer_id o'.order_id) o' db)
      ]

  fill_details : ℕ → PlacedData F → Order F → Order F
  fill_details now d o = record o {
    cart_id = d.cart_id;
    items = d.items;
    total_price = d.total_price;
    total_weight = d.total_weight;
    placed_at = d.placed_at;
    updated_at = now;
  }

  mark_shipped : ℕ → ShippedData → Order F → Option (Order F)
  mark_shipped now d o =
      if str_eq o.status status_shipped
      then none
      else some (record o { status = status_shipped; shipped_at = d.shipped_at; updated_at = now })

module _ {F : Type 0} (zero_float : F) where
  abbrev pub blank_order : Str → Str → Order F
  blank_order order_id customer_id = record {
    order_id = order_id;
    customer_id = customer_id;
    cart_id = [];
    status = [];
    items = [];
    total_price = zero_float;
    total_weight = zero_float;
    placed_at = none;
    shipped_at = none;
    cancelled_at = none;
    cancel_reason = [];
    updated_at = 0;
    awaiting_details = false;
  }

  -- The record that a placement makes of what is known; `none` where it has nothing to add.
  unfoldable pub placed_record : ℕ → PlacedData F → Option (Order F) → Option (Order F)
  unfolding has_details fill_details
  placed_record now d none = some (
      fill_details now d (record (blank_order d.order_id d.customer_id) { status = status_placed }))
  placed_record now d (some o) = if has_details o then none else some (fill_details now d o)

  -- The record that a shipment makes of what is known.
  unfoldable pub shipped_record : ℕ → ShippedData → Option (Order F) → Option (Order F)
  unfolding mark_shipped
  shipped_record now d none =
      mark_shipped now d (record (blank_order d.order_id d.customer_id) { items = d.items })
  shipped_record now d (some o) = mark_shipped now d o

  store_record : Faults → Assoc (Order F) → Option (Order F) → Option Error × Assoc (Order F)
  unfolding save
  store_record faults db none = (none, db)
  store_record faults db (some o) = save faults o db

  unfoldable pub handle_placed :
      ℕ → Faults → PlacedData F → Assoc (Order F) → Option Error × Assoc (Order F)
  unfolding load placed_record store_record
  handle_placed now faults d db =
      if is_empty d.order_id || is_empty d.customer_id
      then (some plain, db)
      else elim (load faults d.customer_id d.order_id db) [
        | err e ↦ (some e, db)
        | ok found ↦ store_record faults db (placed_record now d found)
      ]

  unfoldable pub handle_shipped :
      ℕ → Faults → ShippedData → Assoc (Order F) → Option Error × Assoc (Order F)
  unfolding load shipped_record store_record
  handle_shipped now faults d db =
      if is_empty d.order_id || is_empty d.customer_id
      then (some plain, db)
      else elim (load faults d.customer_id d.order_id db) [
        | err e ↦ (some e, db)
        | ok found ↦ store_record faults db (shipped_record now d found)
      ]

module _ {F : Type 0} where
  -- `Get`
  unfoldable pub get : Faults → Str → Str → Assoc (Order F) → Result (Order F)
  unfolding load
  get faults customer_id order_id db =
      if is_empty customer_id || is_empty order_id
      then err (errorf 400)
      else elim (load faults customer_id order_id db) [
        | err e ↦ err e
        | ok none ↦ err (errorf 404)
        | ok (some o) ↦ ok o
      ]

  cancel_saved : Order F → Option Error × Assoc (Order F) → Result (Order F) × Assoc (Order F)
  cancel_saved o (some e, db) = (err e, db)
  cancel_saved o (none, db) = (ok (record o { awaiting_details = not (has_details o) }), db)

  cancel_record : ℕ → Faults → Str → Assoc (Order F) → Order F → Result (Order F) × Assoc (Order F)
  unfolding save cancellable cancel_saved
  cancel_record now faults reason db o =
      let o' = record o {
        status = status_cancelled;
        cancelled_at = some now;
        cancel_reason = reason;
        updated_at = now;
      } in
      if str_eq o.status status_cancelled
      then (ok o, db)
      else if not (cancellable o)
      then (err (errorf 409), db)
      else cancel_saved o' (save faults o' db)

  -- `Cancel`; `reason` has been trimmed.
  unfoldable pub cancel :
      ℕ → Faults → Str → Str → Str → Assoc (Order F) → Result (Order F) × Assoc (Order F)
  unfolding get cancel_record
  cancel now faults customer_id order_id reason db = elim (get faults customer_id order_id db) [
    | err e ↦ (err e, db)
    | ok o ↦ cancel_record now faults reason db o
  ]
