-- ===== src/Order/Cancellation.antt =====
-- `Cancel` of internal/order/order.go on orders in each state.
use quorum_market.Common.{
  ℕ, ◌≡◌, refl, ap, ap₂, insert, ◌∙◌, false, not, some, arith, Str, is_empty, str_eq, str_eq_refl,
  Assoc, lookup, lookup-insert,
}
use quorum_market.Httpx.Errors.{errorf, ok, err}
use quorum_market.Order.{
  Order, get, order_key, has_details, cancel, cancel_record, cancellable, save, cancel_saved,
  status_placed, status_shipped, status_cancelled,
}
use quorum_market.Order.Events.{no_faults, IsFiled}

module _ {F : Type 0} where
  cancel_found :
      (now : ℕ) (customer_id order_id reason : Str) (db : Assoc (Order F)) (o : Order F)
      → is_empty customer_id ≡ false
      → is_empty order_id ≡ false
      → lookup (order_key customer_id order_id) db ≡ some o
      → cancel now no_faults customer_id order_id reason db
        ≡ cancel_record now no_faults reason db o
  unfolding cancel
  cancel_found now customer_id order_id reason db o cid oid found = ground (arith, cid, oid, found)

  get_found :
      (customer_id order_id : Str) (db : Assoc (Order F)) (o : Order F)
      → is_empty customer_id ≡ false
      → is_empty order_id ≡ false
      → lookup (order_key customer_id order_id) db ≡ some o
      → get no_faults customer_id order_id db ≡ ok o
  unfolding get
  get_found customer_id order_id db o cid oid found = ground (arith, cid, oid, found)

  -- The order as it is stored once it has been cancelled.
  abbrev pub cancelled_order : ℕ → Str → Order F → Order F
  cancelled_order now reason o = record o {
    status = status_cancelled;
    cancelled_at = some now;
    cancel_reason = reason;
    updated_at = now;
    awaiting_details = not (has_details o);
  }

  shipped_refused :
      (now : ℕ) (reason : Str) (db : Assoc (Order F)) (o : Order F)
      → o.status ≡ status_shipped
      → cancel_record now no_faults reason db o ≡ (err (errorf 409), db)
  unfolding cancel_record cancellable str_eq
  shipped_refused now reason db o e = rw e refl

  cancelled_kept :
      (now : ℕ) (reason : Str) (db : Assoc (Order F)) (o : Order F)
      → o.status ≡ status_cancelled
      → cancel_record now no_faults reason db o ≡ (ok o, db)
  unfolding cancel_record cancellable str_eq
  cancelled_kept now reason db o e = rw e refl

  placed_cancelled :
      (now : ℕ) (reason : Str) (db : Assoc (Order F)) (o : Order F)
      → o.status ≡ status_placed
      → cancel_record now no_faults reason db o ≡ (
        ok (cancelled_order now reason o),
        insert (order_key o.customer_id o.order_id) (cancelled_order now reason o) db,
      )
  unfolding cancel_record cancellable save cancel_saved has_details str_eq
  placed_cancelled now reason db o e = rw e refl

  -- A placed order that is cancelled is stored as cancelled, at the time and for the reason of the
  -- call: it is read back as the call answered it, and any later cancellation gives the same answer
  -- and changes nothing.
  pub cancel_placed :
      (now later : ℕ) (customer_id order_id reason reason' : Str) (db : Assoc (Order F))
      (o : Order F)
      → is_empty customer_id ≡ false
      → is_empty order_id ≡ false
      → lookup (order_key customer_id order_id) db ≡ some o
      → IsFiled customer_id order_id (some o)
      → o.status ≡ status_placed
      → let (r, db') = cancel now no_faults customer_id order_id reason db in
        (r ≡ ok (cancelled_order now reason o))
        × ((get no_faults customer_id order_id db' ≡ r)
            × (cancel later no_faults customer_id order_id reason' db' ≡ (r, db')))
  cancel_placed now later customer_id order_id reason reason' db o cid oid found f e =
      let o' = cancelled_order now reason o in
      let k = order_key customer_id order_id in
      let db' = insert k o' db in
      let stored : lookup k db' ≡ some o' = rw (lookup-insert, str_eq_refl) refl in
      let first : cancel now no_faults customer_id order_id reason db ≡ (ok o', db') =
        cancel_found now customer_id order_id reason db o cid oid found
        ∙ (placed_cancelled now reason db o e
            ∙ ap (λ j. (ok o', insert j o' db)) (ap₂ order_key f.0 f.1)) in
      rw first (
        refl,
        (
          get_found customer_id order_id db' o' cid oid stored,
          cancel_found later customer_id order_id reason' db' o' cid oid stored
              ∙ cancelled_kept later reason' db' o' refl,
        ),
      )

  -- An order that has shipped is not cancelled: the call is refused with 409 and changes nothing.
  pub cancel_shipped :
      (now : ℕ) (customer_id order_id reason : Str) (db : Assoc (Order F)) (o : Order F)
      → is_empty customer_id ≡ false
      → is_empty order_id ≡ false
      → lookup (order_key customer_id order_id) db ≡ some o
      → o.status ≡ status_shipped
      → cancel now no_faults customer_id order_id reason db ≡ (err (errorf 409), db)
  cancel_shipped now customer_id order_id reason db o cid oid found e =
      cancel_found now customer_id order_id reason db o cid oid found
      ∙ shipped_refused now reason db o e
