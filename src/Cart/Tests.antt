-- ===== src/Cart/Tests.antt =====
-- internal/cart on concrete inputs. Floats are whole numbers here, and so are the receipts of the
-- claims.
use quorum_market.Common.{
  ℕ, ◌+◌, ◌*◌, ◌/◌, ◌≤◌, ◌≡◌, ◌∷◌, true, false, count, pos, pos_part, add_i64, ◌≤ℤ◌, is_empty,
  has_prefix, insert, Bool, refl, arith, none, some, [], Str, bytes, str_eq, if◌then◌else◌, Assoc,
  lookup,
}
use quorum_market.Httpx.Errors.{plain, ok}
use quorum_market.Cart.Idempotency.{Stored, claim, complete, release, load, save, validate_key}
use quorum_market.Cart.Idempotency
use quorum_market.Cart.Model.{
  Floats, Item, Cart, customer_for, add_or_merge, id_for, total_price, total_weight,
}
use quorum_market.Cart.Model.Lines.{quantity_of, lines_of}
use quorum_market.Cart.Service.{Product, add_item, clear}
use quorum_market.Cart.Service
use quorum_market.Cart.Service.Adding.{before, add_item_within_stock}
use quorum_market.Cart.Checkout.{
  CheckoutRequest, Receipt, World, Shop, Effect, approved, charged, checkout,
}
use quorum_market.Cart.Checkout.Steps.{IsUndone}
use quorum_market.Cart.Checkout.Effects.{checkout_undoes}
use quorum_market.Cart.Checkout.Retries.{checkout_replays, failed_checkout_frees_key}
use quorum_market.Cart.Idempotency.Claims.{no_faults}

abbrev minutes_in : ℕ
minutes_in = 600000000000

abbrev later : ℕ
later = 630000000000

abbrev key : Str
key = bytes "once"

abbrev cart : Str
cart = bytes "cart-c"

abbrev no_claims : Assoc (Stored ℕ)
no_claims = []

-- Prices are in cents.
abbrev cents : Floats ℕ
cents = record {
  zero_float = 0;
  hundred = 1;
  add = λ a b. a + b;
  mul = λ a b. a * b;
  div = λ a b. a / b;
  round = λ a. a;
  of_int = pos_part;
}

abbrev tea : Item ℕ
tea = record {
  product_id = bytes "tea";
  name = bytes "Tea";
  quantity = pos 2;
  unit_weight = 5;
  unit_price = 300;
}

abbrev basket : Cart ℕ
basket = record {
  cart_id = cart;
  customer_id = bytes "c";
  items = tea ∷ [];
  created_at = 0;
  updated_at = 0;
}

abbrev shop : Shop ℕ
shop = record { claims = []; carts = (cart, basket) ∷ []; effects = [] }

abbrev request : CheckoutRequest
request = record { request_id = key; credit_card = bytes "4111"; idempotency_key = [] }

abbrev smooth : World
smooth = record {
  order_id = bytes "ord-1";
  claimed_at = minutes_in;
  placed_at = minutes_in;
  cleared_at = minutes_in;
  ended_at = minutes_in;
  claim_faults = no_faults;
  end_faults = no_faults;
  cart_faults = record { get_error = none; put_error = none };
  txn = ok (bytes "txn-1");
  reservation = ok (bytes "res-1");
  decision = approved (bytes "auth-1");
  write_error = none;
  commit_error = none;
  has_events = true;
}

abbrev later_world : World
later_world = record smooth {
  claimed_at = later;
  placed_at = later;
  cleared_at = later;
  ended_at = later;
}

-- The order cannot be written once the card has been charged.
abbrev unlucky : World
unlucky = record smooth { write_error = some plain }

abbrev paid : Receipt ℕ
paid = record {
  order_id = bytes "ord-1";
  status = bytes "confirmed";
  total_price = 600;
  total_weight = 10;
}

checkout_replays_example :
    let s' = (checkout cents smooth cart request shop).1 in
    checkout cents later_world cart request s' ≡ (ok paid, s')
unfolding checkout is_empty validate_key customer_for has_prefix claim lookup Service.get_cart
    str_eq id_for total_price total_weight
checkout_replays_example =
    checkout_replays cents smooth later_world cart (bytes "c") request request shop paid refl refl
      refl refl refl refl refl refl refl (omega arith) refl

checkout_undoes_example : IsUndone shop.effects (checkout cents unlucky cart request shop).1.effects
unfolding checkout is_empty validate_key customer_for has_prefix claim lookup Service.get_cart
    str_eq id_for
checkout_undoes_example = checkout_undoes cents unlucky cart request shop refl refl

failed_checkout_frees_key_example :
    (claim later no_faults key cart (checkout cents unlucky cart request shop).1.claims).0 ≡ ok none
unfolding checkout is_empty validate_key customer_for has_prefix claim lookup Service.get_cart
    str_eq id_for
failed_checkout_frees_key_example =
    failed_checkout_frees_key cents unlucky later cart (bytes "c") request shop refl refl refl refl
      refl refl (omega arith) (omega arith) refl

abbrev is_charge : Effect ℕ → Bool
is_charge (charged card amount order_id) = true
is_charge _ = false

-- After such a failure, the same request is charged again.
charged_twice :
    let failed_once = (checkout cents unlucky cart request shop).1 in
    let retried = (checkout cents later_world cart request failed_once).1 in
    count is_charge retried.effects ≡ 2
unfolding checkout is_empty validate_key customer_for has_prefix claim lookup Service.get_cart
    str_eq id_for release insert Idempotency.claim_key
charged_twice = refl

abbrev tea_product : Product ℕ
tea_product = record { product_id = bytes "tea"; name = bytes "Tea"; weight = 5; price = 310 }

abbrev fuller : Cart ℕ
fuller = record basket {
  items = record tea { quantity = pos 5; unit_price = 310 } ∷ [];
  updated_at = later;
}

add_item_within_stock_example :
    let faults : Service.Faults = record { get_error = none; put_error = none } in
    let out =
      add_item later faults
        (ok tea_product)
        (ok (pos 9))
        (bytes "c")
        (bytes "tea")
        (pos 3)
        shop.carts in
    (quantity_of (bytes "tea") fuller.items ≡ (
      if str_eq (bytes "tea") (bytes "tea")
      then pos
          (pos_part (quantity_of (bytes "tea") (before later (bytes "c") shop.carts).items) + 3)
      else quantity_of (bytes "tea") (before later (bytes "c") shop.carts).items))
    × (pos (pos_part (quantity_of (bytes "tea") (before later (bytes "c") shop.carts).items) + 3)
        ≤ℤ pos 9)
    × (lookup fuller.cart_id out.1 ≡ some fuller)
    × (lines_of (bytes "tea") fuller.items ≤ 1)
unfolding add_item lookup str_eq id_for is_empty add_i64 add_or_merge
add_item_within_stock_example =
    add_item_within_stock later (record { get_error = none; put_error = none }) tea_product (pos 9)
      (bytes "c") (bytes "tea") (bytes "tea") (pos 3) shop.carts fuller refl (omega arith)
      (omega arith) (omega arith) refl
