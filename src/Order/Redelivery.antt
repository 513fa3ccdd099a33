-- ===== src/Order/Redelivery.antt =====
-- Events of internal/order/order.go that the broker delivers again.
use quorum_market.Common.{
  ℕ, ◌≡◌, false, Option, none, some, arith, is_empty, str_eq, str_eq_refl, Assoc, lookup,
}
use quorum_market.Order.{
  Order, PlacedData, ShippedData, order_key, placed_record, shipped_record, handle_placed,
  handle_shipped,
}
use quorum_market.Order.Events.{
  no_faults, IsFiled, after_placed, after_shipped, lookup-handle_placed, lookup-handle_shipped,
}

module _ {F : Type 0} (zero_float : F) where
  placed_twice :
      (t₁ t₂ t : ℕ) (d : PlacedData F) (r : Option (Order F))
      → d.placed_at ≡ some t
      → placed_record zero_float t₂ d (after_placed zero_float t₁ d r) ≡ none
  unfolding after_placed placed_record
  placed_twice t₁ t₂ t d none e = ground (arith, e)
  placed_twice t₁ t₂ t d (some o) e = ground (arith, e)

  shipped_twice :
      (t₁ t₂ : ℕ) (s : ShippedData) (r : Option (Order F))
      → shipped_record zero_float t₂ s (after_shipped zero_float t₁ s r) ≡ none
  unfolding after_shipped shipped_record str_eq
  shipped_twice t₁ t₂ s none = ground arith
  shipped_twice t₁ t₂ s (some o) = ground arith

  handle_placed_known :
      (now : ℕ) (d : PlacedData F) (db : Assoc (Order F))
      → is_empty d.order_id ≡ false
      → is_empty d.customer_id ≡ false
      → placed_record zero_float now d (lookup (order_key d.customer_id d.order_id) db) ≡ none
      → handle_placed zero_float now no_faults d db ≡ (none, db)
  unfolding handle_placed
  handle_placed_known now d db oid cid known = rw (oid, cid) (ground (arith, known))

  handle_shipped_known :
      (now : ℕ) (s : ShippedData) (db : Assoc (Order F))
      → is_empty s.order_id ≡ false
      → is_empty s.customer_id ≡ false
      → shipped_record zero_float now s (lookup (order_key s.customer_id s.order_id) db) ≡ none
      → handle_shipped zero_float now no_faults s db ≡ (none, db)
  unfolding handle_shipped
  handle_shipped_known now s db oid cid known = rw (oid, cid) (ground (arith, known))

  -- A placement that has been handled and arrives again leaves the store as it is, if it carries
  -- the time of the placement.
  pub placed_redelivered :
      (t₁ t₂ t : ℕ) (d : PlacedData F) (db : Assoc (Order F))
      → is_empty d.order_id ≡ false
      → is_empty d.customer_id ≡ false
      → IsFiled d.customer_id d.order_id (lookup (order_key d.customer_id d.order_id) db)
      → d.placed_at ≡ some t
      → let db' = (handle_placed zero_float t₁ no_faults d db).1 in
        handle_placed zero_float t₂ no_faults d db' ≡ (none, db')
  placed_redelivered t₁ t₂ t d db oid cid f e =
      let k = order_key d.customer_id d.order_id in
      let db' = (handle_placed zero_float t₁ no_faults d db).1 in
      handle_placed_known t₂ d db' oid cid (
        rw (lookup-handle_placed zero_float t₁ d db k oid cid f, str_eq_refl k)
          (placed_twice t₁ t₂ t d (lookup k db) e))

  -- A shipment that has been handled and arrives again leaves the store as it is.
  pub shipped_redelivered :
      (t₁ t₂ : ℕ) (s : ShippedData) (db : Assoc (Order F))
      → is_empty s.order_id ≡ false
      → is_empty s.customer_id ≡ false
      → IsFiled s.customer_id s.order_id (lookup (order_key s.customer_id s.order_id) db)
      → let db' = (handle_shipped zero_float t₁ no_faults s db).1 in
        handle_shipped zero_float t₂ no_faults s db' ≡ (none, db')
  shipped_redelivered t₁ t₂ s db oid cid f =
      let k = order_key s.customer_id s.order_id in
      let db' = (handle_shipped zero_float t₁ no_faults s db).1 in
      handle_shipped_known t₂ s db' oid cid (
        rw (lookup-handle_shipped zero_float t₁ s db k oid cid f, str_eq_refl k)
          (shipped_twice t₁ t₂ s (lookup k db)))
