-- ===== src/Order/Server/Callers.antt =====
-- For whom internal/order/server.go acts behind internal/gateway/gateway.go.
use quorum_market.Common.{
  ◌≡◌, refl, Bool-cases, if◌then◌else◌, false, Option, none, some, List, ℤ, Str, is_empty, Assoc,
  lookup, arith, inl, inr,
}
use quorum_market.Httpx.Errors.{Result, ok, err, errorf}
use quorum_market.Auth.{Claims}
use quorum_market.RateLimit.{Bucket}
use quorum_market.Gateway.{
  Config, Route, Request, Moment, forwarded, handle_request, customer_id_header,
}
use quorum_market.Gateway.Headers.{Verified}
use quorum_market.Gateway.Proxy.{ReverseProxy, RemovesNamed, loses_identity, received_identity}
use quorum_market.Kv.Entry.{Entry}
use quorum_market.Order.{Order, Faults, get, cancel}
use quorum_market.Order.Listing.{list_orders}
use quorum_market.Order.Server.{
  customer_of, handle_list, handle_get, handle_cancel, named, list_as, get_as, cancel_as,
}

customer_of-named :
    (headers : Assoc Str) (caller : Str)
    → lookup customer_id_header headers ≡ some caller
    → is_empty caller ≡ false
    → customer_of headers ≡ ok caller
unfolding customer_of
customer_of-named headers caller named known = rw (named, known) refl

customer_of-nameless :
    (headers : Assoc Str)
    → lookup customer_id_header headers ≡ none
    → customer_of headers ≡ err (errorf 401)
unfolding customer_of is_empty
customer_of-nameless headers nobody = rw nobody refl

module _ {F : Type 0} (decode : Str → Option (Order F)) (scan : Str → ℤ → Result (List Entry))
    (proxy : ReverseProxy) where
  -- A request that the gateway forwards on a route that is not public carries a token that the
  -- verifier accepts, and whatever identity headers the client sent, the orders are listed, read and
  -- cancelled for that token's customer, unless its Connection header names the customer header, which
  -- the proxy then takes off: such a request is refused with 401 and cancels nothing.
  pub forwarded_caller_is_customer :
      (cfg : Config) (route : Route) (m : Moment) (r : Request) (buckets : Assoc Bucket)
      (headers : Assoc Str) (order_id reason : Str) (limit : ℤ) (faults : Faults)
      (db : Assoc (Order F))
      → RemovesNamed proxy
      → (handle_request cfg route m r buckets).0 ≡ forwarded headers
      → route.is_public ≡ false
      → let received = proxy.outbound headers in
        let lost = loses_identity proxy r in
        (c : Claims) × Verified cfg m.now r.headers c
        × (handle_list decode scan received (some limit) ≡ (
            if lost
            then err (errorf 401)
            else named c.subject (list_orders decode scan c.subject limit)))
        × (handle_get faults received order_id db
            ≡ (if lost then err (errorf 401) else get faults c.subject order_id db))
        × (handle_cancel m.now faults received order_id (ok reason) db ≡ (
            if lost
            then (err (errorf 401), db)
            else cancel m.now faults c.subject order_id reason db))
  unfolding handle_list handle_get handle_cancel list_as get_as cancel_as
  forwarded_caller_is_customer cfg route m r buckets headers order_id reason limit faults db removes
        h private =
      let received = proxy.outbound headers in
      let (c, known, sure, told) =
        received_identity proxy cfg route m r buckets headers removes h private in
      elim (Bool-cases (loses_identity proxy r)) [
        | inl lost ↦
            let who = customer_of-nameless received (ground (arith, told, lost)) in
            rw lost (c, known, rw who refl, rw who refl, rw who refl)
        | inr kept ↦
            let who = customer_of-named received c.subject (ground (arith, told, kept)) sure in
            rw kept (c, known, rw who refl, rw who refl, rw who refl)
      ]
