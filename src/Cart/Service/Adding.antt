-- ===== src/Cart/Service/Adding.antt =====
-- What `AddItem` of internal/cart/service.go does to a cart.
use quorum_market.Common.{
  ℕ, ◌+◌, ◌≤◌, ◌≡◌, sym, ap, ◌∙◌, false, some, List, [], ◌∷◌, arith, ℤ, pos, pos_part, ◌≤ℤ◌, ltb_ℤ,
  add_i64, add_i64-exact, max_i64, if◌then◌else◌, Str, str_eq, str_eq_iff, str_eq_refl, Assoc,
  lookup, lookup-insert,
}
use quorum_market.Httpx.Errors.{ok}
use quorum_market.Cart.Model.{Item, Cart, id_for, add_or_merge}
use quorum_market.Cart.Model.Lines.{
  quantity_of, lines_of, quantity_of-merge_line, lines_of-merge_line,
}
use quorum_market.Cart.Service.{
  Faults, Product, get_cart, save_cart, wanted_units, saved, add_to, found_or_new, add_item,
}

module _ {F : Type 0} where
  wanted_units-quantity_of :
      (p : Str) (q : ℤ) (items : List (Item F))
      → pos 1 ≤ℤ q
      → pos_part q ≤ max_i64
      → wanted_units p q items ≡ add_i64 q (quantity_of p items)
  unfolding wanted_units
  wanted_units-quantity_of p q [] sign int = ground (arith, add_i64-exact q (pos 0))
  wanted_units-quantity_of p q (i ∷ items) sign int =
      ground (arith, wanted_units-quantity_of p q items sign int)

  -- The cart before the call.
  abbrev pub before : ℕ → Str → Assoc (Cart F) → Cart F
  before now customer_id db = found_or_new now customer_id (lookup (id_for customer_id) db)

  -- The line that is added.
  abbrev added_line : Product F → ℤ → Item F
  added_line p quantity = record {
    product_id = p.product_id;
    name = p.name;
    quantity = quantity;
    unit_weight = p.weight;
    unit_price = p.price;
  }

  add_to_ok :
      (now : ℕ) (faults : Faults) (p : Product F) (available : ℤ) (product_id : Str) (quantity : ℤ)
      (db : Assoc (Cart F)) (c c' : Cart F)
      → (add_to now faults p available product_id quantity db c).0 ≡ ok c'
      → (c' ≡ add_or_merge now (added_line p quantity) c)
        × (ltb_ℤ available (wanted_units product_id quantity c.items) ≡ false)
        × (lookup c'.cart_id (add_to now faults p available product_id quantity db c).1 ≡ some c')
  unfolding add_to saved save_cart
  add_to_ok now faults p available product_id quantity db c c' h =
      let m = add_or_merge now (added_line p quantity) c in
      ground (arith, lookup-insert m.cart_id m.cart_id m db, str_eq_refl m.cart_id)

  add_item_ok :
      (now : ℕ) (faults : Faults) (p : Product F) (available : ℤ) (customer_id product_id : Str)
      (quantity : ℤ) (db : Assoc (Cart F)) (c' : Cart F)
      → (add_item now faults (ok p) (ok available) customer_id product_id quantity db).0 ≡ ok c'
      → (pos 1 ≤ℤ quantity)
        × (add_item now faults (ok p) (ok available) customer_id product_id quantity db
            ≡ add_to now faults p available product_id quantity db (before now customer_id db))
  unfolding add_item get_cart
  add_item_ok now faults p available customer_id product_id quantity db c' h =
      (ground arith, ground arith)

  -- A cart to which units of a product have been added, and which is stored as it is answered, holds
  -- the units that it held and the new ones, of every other product what it held, and no more of the
  -- product than the warehouse has, as long as the sum is an int; and no product has two lines.
  pub add_item_within_stock :
      (now : ℕ) (faults : Faults) (p : Product F) (available : ℤ) (customer_id product_id j : Str)
      (quantity : ℤ) (db : Assoc (Cart F)) (c' : Cart F)
      → p.product_id ≡ product_id
      → pos 0 ≤ℤ quantity_of product_id (before now customer_id db).items
      → pos_part (quantity_of product_id (before now customer_id db).items) + pos_part quantity
        ≤ max_i64
      → lines_of j (before now customer_id db).items ≤ 1
      → (add_item now faults (ok p) (ok available) customer_id product_id quantity db).0 ≡ ok c'
      → let db' =
          (add_item now faults (ok p) (ok available) customer_id product_id quantity db).1 in
        let total = pos (
          pos_part (quantity_of product_id (before now customer_id db).items)
          + pos_part quantity) in
        (quantity_of j c'.items ≡ (
          if str_eq product_id j then total else quantity_of j (before now customer_id db).items))
        × (total ≤ℤ available)
        × (lookup c'.cart_id db' ≡ some c')
        × (lines_of j c'.items ≤ 1)
  unfolding add_or_merge
  add_item_within_stock now faults p available customer_id product_id j quantity db c' same sign
        room one h =
      let c = before now customer_id db in
      let (positive, e) =
        add_item_ok now faults p available customer_id product_id quantity db c' h in
      let (made, enough, stored) =
        add_to_ok now faults p available product_id quantity db c c' (ap (λ x. x.0) (sym e) ∙ h) in
      let held = quantity_of product_id c.items in
      let merged =
        quantity_of-merge_line j (added_line p quantity) c.items (omega (arith, positive))
          (omega (arith, room)) in
      let sum = add_i64-exact held quantity sign (omega (arith, positive)) room in
      let wanted =
        wanted_units-quantity_of product_id quantity c.items positive (omega (arith, room)) in
      let sum' = add_i64-exact quantity held (omega (arith, positive)) sign (omega (arith, room)) in
      (
        rw made (rw merged (ground (arith, same, sum, str_eq_iff product_id j))),
        ground (arith, enough, wanted, sum'),
        ap (λ x. lookup c'.cart_id x.1) e ∙ stored,
        rw made (rw (lines_of-merge_line j (added_line p quantity) c.items) (ground (arith, one))),
      )
