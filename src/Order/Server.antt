-- ===== src/Order/Server.antt =====
-- internal/order/server.go: the handlers of the order service. A request is its headers, its path and
-- its query; `customerOf` reads the header that the gateway sets.
pub mod Callers
mod Tests
use quorum_market.Common.{
  ℕ, Bool, Option, none, some, List, ℤ, pos, if◌then◌else◌, Str, is_empty, Assoc,
}
use quorum_market.Httpx.Errors.{errorf, Result, ok, err}
use quorum_market.Gateway.{customer_id_header, header_of}
use quorum_market.Kv.Entry.{Entry}
use quorum_market.Order.{Order, Faults, get, cancel}
use quorum_market.Order.Listing.{list_orders}

unfoldable pub customer_of : Assoc Str → Result Str
customer_of headers =
    let customer_id = header_of customer_id_header headers in
    if is_empty customer_id then err (errorf 401) else ok customer_id

-- `limit, _ := strconv.Atoi(…)`, where `none` is a text that is no number
abbrev limit_of : Option ℤ → ℤ
limit_of none = pos 0
limit_of (some n) = n

module _ {F : Type 0} where
  abbrev pub named : Str → Result (List (Order F)) → Result (Str × List (Order F))
  named customer_id (err e) = err e
  named customer_id (ok records) = ok (customer_id, records)

  list_as :
      (Str → Option (Order F))
      → (Str → ℤ → Result (List Entry))
      → Option ℤ
      → Result Str
      → Result (Str × List (Order F))
  list_as decode scan limit (err e) = err e
  list_as decode scan limit (ok customer_id) =
      named customer_id (list_orders decode scan customer_id (limit_of limit))

  unfoldable pub handle_list :
      (Str → Option (Order F))
      → (Str → ℤ → Result (List Entry))
      → Assoc Str
      → Option ℤ
      → Result (Str × List (Order F))
  unfolding list_as
  handle_list decode scan headers limit = list_as decode scan limit (customer_of headers)

  get_as : Faults → Str → Assoc (Order F) → Result Str → Result (Order F)
  get_as faults order_id db (err e) = err e
  get_as faults order_id db (ok customer_id) = get faults customer_id order_id db

  unfoldable pub handle_get : Faults → Assoc Str → Str → Assoc (Order F) → Result (Order F)
  unfolding get_as
  handle_get faults headers order_id db = get_as faults order_id db (customer_of headers)

  cancel_as :
      ℕ
      → Faults
      → Str
      → Assoc (Order F)
      → Result Str
      → Result Str
      → Result (Order F) × Assoc (Order F)
  cancel_as now faults order_id db body (err e) = (err e, db)
  cancel_as now faults order_id db (err e) (ok customer_id) = (err e, db)
  cancel_as now faults order_id db (ok reason) (ok customer_id) =
      cancel now faults customer_id order_id reason db

  -- `handleCancel`, with the trimmed reason of the body, or its error
  unfoldable pub handle_cancel :
      ℕ
      → Faults
      → Assoc Str
      → Str
      → Result Str
      → Assoc (Order F)
      → Result (Order F) × Assoc (Order F)
  unfolding cancel_as
  handle_cancel now faults headers order_id body db =
      cancel_as now faults order_id db body (customer_of headers)
