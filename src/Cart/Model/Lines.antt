-- ===== src/Cart/Model/Lines.antt =====
-- The lines of a cart and the ids of internal/cart/model.go.
use quorum_market.Common.{
  ℕ, ◌≤◌, ◌≡◌, refl, List, [], ◌∷◌, arith, ℤ, pos, pos_part, ◌≤ℤ◌, add_i64, add_i64-exact, max_i64,
  if◌then◌else◌, Str, ◌==◌, ◌&&◌, is_empty, str_eq, str_eq_iff, has_prefix, count,
}
use quorum_market.Httpx.Errors.{errorf, ok, err}
use quorum_market.Cart.Model.{Item, id_for, customer_for, merge_line}

-- A cart id leads back to its customer, unless the customer's id is empty.
pub customer_for-id_for :
    (customer_id : Str)
    → customer_for (id_for customer_id)
      ≡ (if is_empty customer_id then err (errorf 400) else ok customer_id)
unfolding customer_for id_for has_prefix
customer_for-id_for customer_id = refl

module _ {F : Type 0} where
  -- The quantity of a product in the first of its lines, 0 where there is none.
  abbrev pub quantity_of : Str → List (Item F) → ℤ
  quantity_of p [] = pos 0
  quantity_of p (i ∷ items) = if str_eq i.product_id p then i.quantity else quantity_of p items

  -- How many lines a product has.
  abbrev pub lines_of : Str → List (Item F) → ℕ
  lines_of p = count (λ (i : Item F). str_eq i.product_id p)

  pub quantity_of-merge_line :
      (p : Str) (item : Item F) (items : List (Item F))
      → pos 0 ≤ℤ item.quantity
      → pos_part item.quantity ≤ max_i64
      → quantity_of p (merge_line item items) ≡ (
          if str_eq item.product_id p
          then add_i64 (quantity_of p items) item.quantity
          else quantity_of p items)
  unfolding merge_line
  quantity_of-merge_line p item [] sign int =
      ground (arith, add_i64-exact (pos 0) item.quantity, str_eq_iff item.product_id p)
  quantity_of-merge_line p item (held ∷ items) sign int = ground (
    arith,
    quantity_of-merge_line p item items sign int,
    str_eq_iff held.product_id item.product_id,
    str_eq_iff held.product_id p,
    str_eq_iff item.product_id p,
  )

  pub lines_of-merge_line :
      (p : Str) (item : Item F) (items : List (Item F))
      → lines_of p (merge_line item items)
        ≡ (if str_eq item.product_id p && lines_of p items == 0 then 1 else lines_of p items)
  unfolding merge_line
  lines_of-merge_line p item [] = ground arith
  lines_of-merge_line p item (held ∷ items) = ground (
    arith,
    lines_of-merge_line p item items,
    str_eq_iff held.product_id item.product_id,
    str_eq_iff held.product_id p,
    str_eq_iff item.product_id p,
  )
