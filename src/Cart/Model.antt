-- ===== src/Cart/Model.antt =====
-- internal/cart/model.go: carts and their lines. Floats are a type of which the code uses the
-- operations in `Floats`.
pub mod Lines
use quorum_market.Common.{
  ℕ, Bool, true, false, not, Option, none, some, List, [], ◌∷◌, ◌++◌, ℤ, pos, add_i64,
  if◌then◌else◌, Str, bytes, is_empty, str_eq, has_prefix,
}
use quorum_market.Httpx.Errors.{Error, errorf, Result, ok, err}
use quorum_market.Warehouse.Items

-- float64, with `math.Round` and the conversion of an int
pub record Floats (F : Type 0) : Type 0 where
  pub zero_float : F
  pub hundred : F
  pub add : F → F → F
  pub mul : F → F → F
  pub div : F → F → F
  pub round : F → F
  pub of_int : ℤ → F

pub record Item (F : Type 0) : Type 0 where
  pub product_id : Str
  pub name : Str
  pub quantity : ℤ  -- int
  pub unit_weight : F
  pub unit_price : F

pub record Cart (F : Type 0) : Type 0 where
  pub cart_id : Str
  pub customer_id : Str
  pub items : List (Item F)
  pub created_at : ℕ
  pub updated_at : ℕ

abbrev pub key_prefix : Str
key_prefix = bytes "cart-"

-- `IDFor`
unfoldable pub id_for : Str → Str
id_for customer_id = key_prefix ++ customer_id

-- `strings.TrimPrefix(s, prefix)`, where the prefix is there
unfoldable pub without_prefix : Str → Str → Str
without_prefix s [] = s
without_prefix [] (p ∷ ps) = []
without_prefix (c ∷ s) (p ∷ ps) = without_prefix s ps

unfoldable pub customer_for : Str → Result Str
unfolding without_prefix
customer_for cart_id =
    if not (has_prefix cart_id key_prefix)
    then err (errorf 400)
    else let customer_id = without_prefix cart_id key_prefix in
      if is_empty customer_id then err (errorf 400) else ok customer_id

module _ {F : Type 0} where
  unfoldable pub new_cart : ℕ → Str → Cart F
  unfolding id_for
  new_cart now customer_id = record {
    cart_id = id_for customer_id;
    customer_id = customer_id;
    items = [];
    created_at = now;
    updated_at = now;
  }

  -- The line of a product that is in the cart, once more units of it are added.
  abbrev pub merged_line : Item F → Item F → Item F
  merged_line held item = record held {
    quantity = add_i64 held.quantity item.quantity;
    unit_weight = item.unit_weight;
    unit_price = item.unit_price;
    name = if is_empty item.name then held.name else item.name;
  }

  -- The lines of the cart after `AddOrMerge`.
  unfoldable pub merge_line : Item F → List (Item F) → List (Item F)
  merge_line item [] = item ∷ []
  merge_line item (held ∷ items) =
      let later = held ∷ merge_line item items in
      if str_eq held.product_id item.product_id then merged_line held item ∷ items else later

  unfoldable pub add_or_merge : ℕ → Item F → Cart F → Cart F
  unfolding merge_line
  add_or_merge now item c = record c { items = merge_line item c.items; updated_at = now }

  -- `IsEmpty`
  abbrev pub is_empty_cart : Cart F → Bool
  is_empty_cart c = elim c.items [ [] ↦ true | ◌∷◌ x xs ↦ false ]

  -- `Item.Order`, `OrderItems`
  abbrev pub order_item : Item F → Items.Item
  order_item i = record { product_id = i.product_id; quantity = i.quantity }

  unfoldable pub order_items : List (Item F) → List Items.Item
  order_items [] = []
  order_items (i ∷ items) = order_item i ∷ order_items items

  module _ (floats : Floats F) where
    abbrev pub round2 : F → F
    round2 v = floats.div (floats.round (floats.mul v floats.hundred)) floats.hundred

    abbrev pub line_weight : Item F → F
    line_weight i = floats.mul i.unit_weight (floats.of_int i.quantity)

    abbrev pub line_price : Item F → F
    line_price i = floats.mul i.unit_price (floats.of_int i.quantity)

    -- The loops of the totals, from the first line on.
    sum_lines : (Item F → F) → F → List (Item F) → F
    sum_lines f total [] = total
    sum_lines f total (i ∷ items) = sum_lines f (floats.add total (f i)) items

    unfoldable pub total_weight : Cart F → F
    unfolding sum_lines
    total_weight c = round2 (sum_lines line_weight floats.zero_float c.items)

    unfoldable pub total_price : Cart F → F
    unfolding sum_lines
    total_price c = round2 (sum_lines line_price floats.zero_float c.items)
