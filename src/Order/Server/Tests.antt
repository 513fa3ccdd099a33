-- ===== src/Order/Server/Tests.antt =====
-- internal/order/server.go behind internal/gateway/gateway.go on concrete inputs.
use quorum_market.Common.{
  ℕ, ◌≡◌, refl, Option, none, some, List, [], ℤ, pos, Str, bytes, str_eq, lookup, delete, insert,
  keep, is_empty, if◌then◌else◌,
}
use quorum_market.Httpx.Errors.{Result, ok, err, errorf}
use quorum_market.Auth.{Claims, verify, bearer_token}
use quorum_market.Auth.Toy.{toy_parse}
use quorum_market.RateLimit.{allow}
use quorum_market.Gateway.{handle_request, strip, authenticate}
use quorum_market.Gateway.Headers.{Verified}
use quorum_market.Gateway.Toy.{config, carts, moment, spoofed, passed_on, proxy, proxy-RemovesNamed}
use quorum_market.Gateway.Proxy.{loses_identity}
use quorum_market.Kv.Entry.{Entry}
use quorum_market.Order.{Order, Faults, get, cancel}
use quorum_market.Order.Listing.{list_orders}
use quorum_market.Order.Server.{handle_list, handle_get, handle_cancel, named}
use quorum_market.Order.Server.Callers.{forwarded_caller_is_customer}

abbrev decode : Str → Option (Order ℕ)
decode value = none

abbrev no_rows : Str → ℤ → Result (List Entry)
no_rows prefix limit = ok []

abbrev healthy : Faults
healthy = record { get_error = none; put_error = none }

forwarded_caller_is_customer_example :
    let received = proxy.outbound passed_on in
    let lost = loses_identity proxy spoofed in
    (c : Claims) × Verified config moment.now spoofed.headers c
    × (handle_list decode no_rows received (some (pos 2)) ≡ (
        if lost
        then err (errorf 401)
        else named c.subject (list_orders decode no_rows c.subject (pos 2))))
    × (handle_get {F = ℕ} healthy received (bytes "1") []
        ≡ (if lost then err (errorf 401) else get healthy c.subject (bytes "1") []))
    × (handle_cancel {F = ℕ} moment.now healthy received (bytes "1") (ok (bytes "late")) [] ≡ (
        if lost
        then (err (errorf 401), [])
        else cancel moment.now healthy c.subject (bytes "1") (bytes "late") []))
unfolding handle_request authenticate bearer_token lookup strip delete str_eq is_empty verify
    toy_parse insert allow keep
forwarded_caller_is_customer_example =
    forwarded_caller_is_customer decode no_rows proxy config carts moment spoofed [] passed_on
      (bytes "1") (bytes "late") (pos 2) healthy [] proxy-RemovesNamed refl refl
