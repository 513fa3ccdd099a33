-- ===== src/Warehouse/Items.antt =====
-- internal/warehouse/inventory.go: `normalize`, which merges the lines of a request by product.
-- internal/orders/orders.go has the line's type. A normalized line is a pair of a product and a
-- quantity; its quantity is positive, and so a natural number.
pub mod Merged
use quorum_market.Common.{
  ℕ, ◌+◌, ◌-◌, ◌^◌, Bool, ◌||◌, Option, none, some, List, [], ◌∷◌, ℤ, pos, pos_part, leb_ℤ, ltb,
  if◌then◌else◌, Str, is_empty, str_lt, str_eq, Assoc, lookup, insert, ◌==◌, ◌&&◌, true, false,
}
use quorum_market.Httpx.Errors.{Error, errorf, Result, ok, err}

-- `orders.Item`
pub record Item : Type 0 where
  pub product_id : Str
  pub quantity : ℤ  -- int

-- Normalized lines.
abbrev pub Lines : Type 0
Lines = Assoc ℕ

abbrev pub max_int : ℕ
max_int = 2 ^ 63 - 1

-- `totals[id]`, 0 for a product that is not there yet
abbrev pub total_of : Str → Lines → ℕ
total_of id totals = elim (lookup id totals) [ none ↦ 0 | some q ↦ q ]

-- The loop that adds the quantities up.
unfoldable pub totals_loop : List Item → Lines → Result Lines
totals_loop [] totals = ok totals
totals_loop (item ∷ items) totals =
    let q = pos_part item.quantity in
    let total = total_of item.product_id totals in
    let rest = totals_loop items (insert item.product_id (total + q) totals) in
    if is_empty item.product_id || leb_ℤ item.quantity (pos 0)
    then err (errorf 400)
    else if ltb (max_int - q) total
    then err (errorf 400)
    else rest

-- `sort.Strings` of the products, with their totals
unfoldable pub insert_line : Str → ℕ → Lines → Lines
insert_line id q [] = (id, q) ∷ []
insert_line id q ((j, r) ∷ ls) =
    if str_lt j id then (j, r) ∷ insert_line id q ls else (id, q) ∷ (j, r) ∷ ls

unfoldable pub sort_lines : Lines → Lines
unfolding insert_line
sort_lines [] = []
sort_lines ((id, q) ∷ ls) = insert_line id q (sort_lines ls)

merged : Result Lines → Result Lines
merged (ok totals) = ok (sort_lines totals)
merged (err e) = err e

unfoldable pub normalize : List Item → Result Lines
unfolding totals_loop sort_lines merged
normalize [] = err (errorf 400)
normalize (item ∷ items) = merged (totals_loop (item ∷ items) [])

-- `sameItems`
unfoldable pub same_items : Lines → Lines → Bool
same_items [] [] = true
same_items [] ((k, r) ∷ b) = false
same_items ((j, q) ∷ a) [] = false
same_items ((j, q) ∷ a) ((k, r) ∷ b) = (str_eq j k && q == r) && same_items a b
