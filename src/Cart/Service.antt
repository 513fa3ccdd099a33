-- ===== src/Cart/Service.antt =====
-- internal/cart/service.go: the carts in the database, and adding an item. The database is a map; a
-- cart is read back as it was written. `Faults` says which of its calls fail. The answers of the
-- catalogue and of the warehouse are arguments.
pub mod Adding
use quorum_market.Common.{
  ℕ, Bool, true, false, not, Option, none, some, List, [], ◌∷◌, ℤ, pos, ltb_ℤ, leb_ℤ, add_i64,
  if◌then◌else◌, Str, is_empty, str_eq, Assoc, lookup, insert,
}
use quorum_market.Httpx.Errors.{Error, errorf, wrap, Result, ok, err, is_status}
use quorum_market.Cart.Model.{Item, Cart, id_for, new_cart, add_or_merge}

pub record Faults : Type 0 where
  pub get_error : Option Error
  pub put_error : Option Error

-- `product.Product`
pub record Product (F : Type 0) : Type 0 where
  pub product_id : Str
  pub name : Str
  pub weight : F
  pub price : F

unfoldable pub translate_product_error : Error → Error
translate_product_error e = if is_status e 404 then errorf 404 else wrap 503 e

module _ {F : Type 0} where
  unfoldable pub get_cart : Faults → Str → Assoc (Cart F) → Result (Option (Cart F))
  get_cart faults customer_id db = elim faults.get_error [
    | some e ↦ err (wrap 503 e)
    | none ↦ ok (lookup (id_for customer_id) db)
  ]

  -- The error of `Save`, and the database after it.
  unfoldable pub save_cart : Faults → Cart F → Assoc (Cart F) → Option Error × Assoc (Cart F)
  save_cart faults c db = elim faults.put_error [
    | some e ↦ (some (wrap 503 e), db)
    | none ↦ (none, insert c.cart_id c db)
  ]

  -- `Clear`
  unfoldable pub clear : ℕ → Faults → Str → Assoc (Cart F) → Option Error × Assoc (Cart F)
  unfolding save_cart
  clear now faults customer_id db = save_cart faults (new_cart now customer_id) db

  -- The loop of `AddItem` over the lines: the units that the cart would hold.
  unfoldable pub wanted_units : Str → ℤ → List (Item F) → ℤ
  wanted_units product_id quantity [] = quantity
  wanted_units product_id quantity (i ∷ items) =
      if str_eq i.product_id product_id
      then add_i64 quantity i.quantity
      else wanted_units product_id quantity items

  saved : Cart F → Option Error × Assoc (Cart F) → Result (Cart F) × Assoc (Cart F)
  saved c (some e, db) = (err e, db)
  saved c (none, db) = (ok c, db)

  -- The end of `AddItem`, with the cart that was found or made.
  add_to :
      ℕ
      → Faults
      → Product F
      → ℤ
      → Str
      → ℤ
      → Assoc (Cart F)
      → Cart F
      → Result (Cart F) × Assoc (Cart F)
  unfolding wanted_units save_cart saved
  add_to now faults p available product_id quantity db c =
      let item : Item F = record {
        product_id = p.product_id;
        name = p.name;
        quantity = quantity;
        unit_weight = p.weight;
        unit_price = p.price;
      } in
      let c' = add_or_merge now item c in
      if ltb_ℤ available (wanted_units product_id quantity c.items)
      then (err (errorf 409), db)
      else saved c' (save_cart faults c' db)

  abbrev pub found_or_new : ℕ → Str → Option (Cart F) → Cart F
  found_or_new now customer_id none = new_cart now customer_id
  found_or_new now customer_id (some c) = c

  -- `AddItem`
  unfoldable pub add_item :
      ℕ
      → Faults
      → Result (Product F)
      → Result ℤ
      → Str
      → Str
      → ℤ
      → Assoc (Cart F)
      → Result (Cart F) × Assoc (Cart F)
  unfolding add_to get_cart
  add_item now faults product stock customer_id product_id quantity db =
      if is_empty product_id
      then (err (errorf 400), db)
      else if leb_ℤ quantity (pos 0)
      then (err (errorf 400), db)
      else elim product [
        | err e ↦ (err (translate_product_error e), db)
        | ok p ↦ elim stock [
          | err e ↦ (err (wrap 503 e), db)
          | ok available ↦ elim (get_cart faults customer_id db) [
            | err e ↦ (err e, db)
            | ok found ↦
                add_to now faults p available product_id quantity db
                  (found_or_new now customer_id found)
          ]
        ]
      ]
