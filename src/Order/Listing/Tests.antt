-- ===== src/Order/Listing/Tests.antt =====
-- `List` of internal/order/order.go on concrete inputs. Floats are whole numbers.
use quorum_market.Common.{
  false, str_lt, pos_part, ℕ, ◌≡◌, refl, subst, Option, none, some, List, [], ◌∷◌, ◌++◌, All, ℤ,
  pos, Str, bytes, has_prefix, is_empty, str_lt, Assoc,
}
use quorum_market.Httpx.Errors.{Result, ok}
use quorum_market.Kv.Entry.{Entry}
use quorum_market.Kv.Store.{sort_by_key, insert_by_key}
use quorum_market.Kv.Service.Scans.{values, finish_scan}
use quorum_market.Order.{Order, blank_order, order_key}
use quorum_market.Order.Listing.{
  customer_prefix, list_limit, list_orders, records, reverse_onto, listed,
}
use quorum_market.Order.Listing.Oldest.{
  key_of, IsFiled, IsNewestFirst, after, list_leaves_out_newest,
}
use quorum_market.Order.Listing.Rows.{IsFiledRow, has_colon, listed_orders_are_own}

-- The value of a row is the id of its order, of the customer "c".
abbrev decode : Str → Option (Order ℕ)
decode [] = none
decode (c ∷ s) = some (blank_order 0 (c ∷ s) (bytes "c"))

abbrev row : Str → Entry
row id = record {
  key = bytes "order:c:" ++ id;
  value = id;
  version = pos 1;
  origin = bytes "n";
  expires_at = pos 0;
}

abbrev merged : Assoc Entry
merged =
    (bytes "order:c:3", row (bytes "3"))
    ∷ ((bytes "order:c:1", row (bytes "1")) ∷ ((bytes "order:c:2", row (bytes "2")) ∷ []))

abbrev scan : Str → ℤ → Result (List Entry)
scan prefix limit = finish_scan limit (ok merged)

abbrev oldest_two : List (Order ℕ)
oldest_two = blank_order 0 (bytes "2") (bytes "c") ∷ (blank_order 0 (bytes "1") (bytes "c") ∷ [])

-- The newest of three orders is not among the first two.
newest_is_left_out : list_orders decode scan (bytes "c") (pos 2) ≡ ok oldest_two
unfolding list_orders listed finish_scan values sort_by_key insert_by_key reverse_onto records
    is_empty str_lt
newest_is_left_out = refl

row-IsFiled : (c : ℕ) (id : Str) → IsFiled decode (row (c ∷ id))
unfolding order_key
row-IsFiled c id o h =
    let e : blank_order 0 (c ∷ id) (bytes "c") ≡ o = cc in
    subst (λ p. bytes "order:c:" ++ (c ∷ id) ≡ key_of p) e refl

list_leaves_out_newest_example :
    IsNewestFirst oldest_two
    × All
        (λ o.
          All
            (λ e. str_lt e.key (key_of o) ≡ false)
            (after (pos_part (list_limit (pos 2))) (sort_by_key (values merged))))
        oldest_two
unfolding list_orders listed finish_scan values sort_by_key insert_by_key reverse_onto records
    is_empty str_lt
list_leaves_out_newest_example =
    list_leaves_out_newest decode scan merged (bytes "c") (pos 2) oldest_two refl
      (row-IsFiled b'3' [], (row-IsFiled b'1' [], (row-IsFiled b'2' [], tt))) refl

abbrev own_rows : List Entry
own_rows = row (bytes "1") ∷ []

row_is_filed :
    (o : Order ℕ)
    → decode (bytes "1") ≡ some o
    → IsFiledRow decode (customer_prefix (bytes "c")) (row (bytes "1")) o
unfolding customer_prefix order_key has_colon has_prefix
row_is_filed o h =
    let e : blank_order 0 (bytes "1") (bytes "c") ≡ o = cc in
    subst (IsFiledRow decode (customer_prefix (bytes "c")) (row (bytes "1"))) e
      (record { in_range = refl; filed = refl; plain = refl })

abbrev own_scan : Str → ℤ → Result (List Entry)
own_scan prefix limit = ok own_rows

abbrev own_orders : List (Order ℕ)
own_orders = blank_order 0 (bytes "1") (bytes "c") ∷ []

listed_orders_are_own_example : All (λ o. o.customer_id ≡ bytes "c") own_orders
unfolding list_orders listed reverse_onto records is_empty has_colon
listed_orders_are_own_example =
    listed_orders_are_own decode own_scan own_rows (bytes "c") (pos 2) own_orders refl refl
      (row_is_filed, tt) refl
