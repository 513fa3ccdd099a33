-- ===== src/Order/Listing.antt =====
-- `List` of internal/order/order.go. The database's scan is an argument, and so is the decoder of a
-- record.
pub mod Rows
pub mod Oldest
mod Tests
use quorum_market.Common.{
  ℕ, Bool, ◌||◌, Option, none, some, List, [], ◌∷◌, ◌++◌, ℤ, pos, leb_ℤ, ltb_ℤ, if◌then◌else◌, Str,
  bytes, is_empty,
}
use quorum_market.Httpx.Errors.{errorf, wrap, Result, ok, err}
use quorum_market.Kv.Entry.{Entry}
use quorum_market.Order.{Order}

unfoldable pub customer_prefix : Str → Str
customer_prefix customer_id = bytes "order:" ++ (customer_id ++ bytes ":")

abbrev pub list_limit : ℤ → ℤ
list_limit limit = if leb_ℤ limit (pos 0) || ltb_ℤ (pos 200) limit then pos 50 else limit

module _ {A : Type 0} where
  -- The loop that reverses a slice, over what has been reversed.
  unfoldable pub reverse_onto : List A → List A → List A
  reverse_onto done [] = done
  reverse_onto done (x ∷ xs) = reverse_onto (x ∷ done) xs

module _ {F : Type 0} (decode : Str → Option (Order F)) where
  -- A row that cannot be decoded is skipped.
  unfoldable pub records : List Entry → List (Order F)
  records [] = []
  records (e ∷ es) =
      let rest = records es in elim (decode e.value) [ none ↦ rest | some o ↦ o ∷ rest ]

  listed : Result (List Entry) → Result (List (Order F))
  unfolding records reverse_onto
  listed (err e) = err (wrap 503 e)
  listed (ok entries) = ok (reverse_onto [] (records entries))

  -- `List`
  unfoldable pub list_orders : (Str → ℤ → Result (List Entry)) → Str → ℤ → Result (List (Order F))
  unfolding listed customer_prefix
  list_orders scan customer_id limit =
      if is_empty customer_id
      then err (errorf 400)
      else listed (scan (customer_prefix customer_id) (list_limit limit))
