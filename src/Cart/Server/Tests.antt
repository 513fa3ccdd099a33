-- ===== src/Cart/Server/Tests.antt =====
-- internal/cart/server.go behind internal/gateway/gateway.go on concrete inputs. Floats are whole
-- numbers.
use quorum_market.Common.{
  ℕ, ◌≡◌, ◌+◌, ◌*◌, ◌/◌, ◌⊎◌, refl, true, none, [], ◌∷◌, pos, pos_part, Str, bytes, str_eq, lookup,
  delete, insert, keep, is_empty, Assoc, false, has_prefix,
}
use quorum_market.Httpx.Errors.{Result, ok, err}
use quorum_market.Auth.{Claims, verify, bearer_token}
use quorum_market.Auth.Toy.{toy_parse}
use quorum_market.RateLimit.{allow}
use quorum_market.Gateway.{
  Request, Reply, forwarded, handle_request, strip, authenticate, customer_id_header,
}
use quorum_market.Gateway.Proxy.{loses_identity, connection_header}
use quorum_market.Gateway.Toy.{config, carts, moment, spoofed, passed_on, proxy, proxy-RemovesNamed}
use quorum_market.Gateway.Headers.{Verified}
use quorum_market.Cart.Model.{Floats, Cart, id_for, customer_for}
use quorum_market.Cart.Service
use quorum_market.Cart.Service.{Product}
use quorum_market.Cart.Checkout.{CheckoutRequest, World, Shop, approved}
use quorum_market.Cart.Idempotency
use quorum_market.Cart.Server.{
  AddItemRequest, authorize, handle_create, handle_get, handle_add_item, handle_checkout,
}
use quorum_market.Cart.Server.Ownership.{refusal, forwarded_caller_reaches_own_cart}

abbrev cents : Floats ℕ
cents = record {
  zero_float = 0;
  hundred = 1;
  add = λ a b. a + b;
  mul = λ a b. a * b;
  div = λ a b. a / b;
  round = λ a. a;
  of_int = pos_part;
}

abbrev other_cart : Str
other_cart = bytes "cart-cust-9"

abbrev healthy : Service.Faults
healthy = record { get_error = none; put_error = none }

abbrev claims_healthy : Idempotency.Faults
claims_healthy = record { get_error = none; put_error = none }

abbrev held : Assoc (Cart ℕ)
held =
    (
      other_cart,
      record {
        cart_id = other_cart;
        customer_id = bytes "cust-9";
        items = [];
        created_at = 1;
        updated_at = 1;
      },
    )
    ∷ []

abbrev tea : Result (Product ℕ)
tea = ok (record { product_id = bytes "tea"; name = bytes "Tea"; weight = 5; price = 300 })

abbrev addition : Result AddItemRequest
addition = ok (record { product_id = bytes "tea"; quantity = pos 1 })

abbrev world : World
world = record {
  order_id = bytes "o-1";
  claimed_at = 1;
  placed_at = 2;
  cleared_at = 3;
  ended_at = 4;
  claim_faults = claims_healthy;
  end_faults = claims_healthy;
  cart_faults = healthy;
  txn = ok (bytes "t");
  reservation = ok (bytes "r");
  decision = approved (bytes "a");
  write_error = none;
  commit_error = none;
  has_events = true;
}

abbrev shop : Shop ℕ
shop = record { claims = []; carts = held; effects = [] }

abbrev purchase : Result CheckoutRequest
purchase = ok (record {
  request_id = bytes "q";
  credit_card = bytes "4111-1111-1111-1111";
  idempotency_key = [];
})

forwarded_caller_reaches_own_cart_example :
    let received = proxy.outbound passed_on in
    (c : Claims) × Verified config moment.now spoofed.headers c
    × (((loses_identity proxy spoofed ≡ true)
          × (authorize received other_cart ≡ customer_for other_cart))
        ⊎ ((loses_identity proxy spoofed ≡ false)
            × (handle_create received (ok (bytes "cust-9")) ≡ ok (id_for c.subject, c.subject))
            × ((str_eq other_cart (id_for c.subject) ≡ true)
                ⊎ ((handle_get cents healthy received other_cart held ≡ err (refusal other_cart))
                    × (handle_add_item cents moment.now healthy tea
                          (ok (pos 9))
                          received
                          other_cart
                          addition
                          held
                        ≡ (err (refusal other_cart), held))
                    × (handle_checkout cents world received other_cart purchase shop
                        ≡ (err (refusal other_cart), shop))))))
unfolding handle_request authenticate bearer_token lookup strip delete str_eq is_empty verify
    toy_parse insert allow keep
forwarded_caller_reaches_own_cart_example =
    forwarded_caller_reaches_own_cart cents proxy config carts moment spoofed [] passed_on
      other_cart (bytes "cust-9") healthy tea (ok (pos 9)) addition held world purchase shop
      proxy-RemovesNamed refl refl

-- The same request with a Connection header that names the customer header.
abbrev nameless : Request
nameless = record spoofed { headers = (connection_header, customer_id_header) ∷ spoofed.headers }

abbrev outbound_of : Reply → Assoc Str
outbound_of (forwarded headers) = proxy.outbound headers
outbound_of _ = []

-- It is granted the cart of another customer.
nameless_reaches_other_cart :
    authorize (outbound_of (handle_request config carts moment nameless []).0) other_cart
    ≡ ok (bytes "cust-9")
unfolding handle_request authenticate bearer_token lookup strip delete str_eq is_empty verify
    toy_parse insert allow keep authorize customer_for has_prefix
nameless_reaches_other_cart = refl
