-- ===== src/Cart/Server.antt =====
-- internal/cart/server.go: the handlers of the cart service and their authorization. A request is its
-- headers, the cart id of its path and its body, as JSON decodes it.
pub mod Ownership
mod Tests
use quorum_market.Common.{
  ℕ, Bool, true, false, not, Option, none, some, List, [], ◌∷◌, ℤ, if◌then◌else◌, Str, bytes,
  is_empty, str_eq, Assoc,
}
use quorum_market.Httpx.Errors.{Error, errorf, Result, ok, err}
use quorum_market.Gateway.{customer_id_header, header_of}
use quorum_market.Cart.Model.{
  Floats, Item, Cart, id_for, customer_for, round2, line_weight, line_price, total_weight,
  total_price,
}
use quorum_market.Cart.Service
use quorum_market.Cart.Service.{Product, get_cart, add_item}
use quorum_market.Cart.Checkout.{CheckoutRequest, Receipt, World, Shop, checkout}

abbrev pub idempotency_key_header : Str
idempotency_key_header = bytes "Idempotency-Key"

pub record AddItemRequest : Type 0 where
  pub product_id : Str
  pub quantity : ℤ

pub record LineView (F : Type 0) : Type 0 where
  pub item : Item F
  pub line_weight : F
  pub line_price : F

pub record CartView (F : Type 0) : Type 0 where
  pub cart_id : Str
  pub customer_id : Str
  pub items : List (LineView F)
  pub total_weight : F
  pub total_price : F

owner_or_refused : Str → Str → Result Str
owner_or_refused caller owner =
    if is_empty caller
    then ok owner
    else if not (str_eq caller owner)
    then err (errorf 404)
    else ok owner

-- `authorize`: the owner of the cart.
unfoldable pub authorize : Assoc Str → Str → Result Str
unfolding owner_or_refused
authorize headers cart_id = elim (customer_for cart_id) [
  | err e ↦ err e
  | ok owner ↦ owner_or_refused (header_of customer_id_header headers) owner
]

created : Str → Result (Str × Str)
created customer_id =
    if is_empty customer_id then err (errorf 400) else ok (id_for customer_id, customer_id)

-- `handleCreate`, of which the body names a customer: the ids of the cart and of its customer
unfoldable pub handle_create : Assoc Str → Result Str → Result (Str × Str)
unfolding created
handle_create headers (err e) = err e
handle_create headers (ok customer_id) =
    let caller = header_of customer_id_header headers in
    created (if not (is_empty caller) then caller else customer_id)

-- The body's key, unless the header has one.
unfoldable pub with_header_key : Assoc Str → CheckoutRequest → CheckoutRequest
with_header_key headers req =
    let key = header_of idempotency_key_header headers in
    if not (is_empty key) then record req { idempotency_key = key } else req

module _ {F : Type 0} (floats : Floats F) where
  line_views : List (Item F) → List (LineView F)
  line_views [] = []
  line_views (i ∷ items) =
      record {
        item = i;
        line_weight = round2 floats (line_weight floats i);
        line_price = round2 floats (line_price floats i);
      }
      ∷ line_views items

  unfoldable pub view_of : Cart F → CartView F
  unfolding line_views
  view_of c = record {
    cart_id = c.cart_id;
    customer_id = c.customer_id;
    items = line_views c.items;
    total_weight = total_weight floats c;
    total_price = total_price floats c;
  }

  view_found : Result (Option (Cart F)) → Result (CartView F)
  unfolding view_of
  view_found (err e) = err e
  view_found (ok none) = err (errorf 404)
  view_found (ok (some c)) = ok (view_of c)

  unfoldable pub handle_get :
      Service.Faults → Assoc Str → Str → Assoc (Cart F) → Result (CartView F)
  unfolding view_found
  handle_get faults headers cart_id db = elim (authorize headers cart_id) [
    | err e ↦ err e
    | ok customer_id ↦ view_found (get_cart faults customer_id db)
  ]

  view_added : Result (Cart F) × Assoc (Cart F) → Result (CartView F) × Assoc (Cart F)
  unfolding view_of
  view_added (err e, db) = (err e, db)
  view_added (ok c, db) = (ok (view_of c), db)

  -- `handleAddItem`, with the answers of the catalogue and of the warehouse
  unfoldable pub handle_add_item :
      ℕ
      → Service.Faults
      → Result (Product F)
      → Result ℤ
      → Assoc Str
      → Str
      → Result AddItemRequest
      → Assoc (Cart F)
      → Result (CartView F) × Assoc (Cart F)
  unfolding view_added
  handle_add_item now faults product stock headers cart_id body db =
      elim (authorize headers cart_id) [
        | err e ↦ (err e, db)
        | ok customer_id ↦ elim body [
          | err e ↦ (err e, db)
          | ok req ↦
              view_added
                (add_item now faults product stock customer_id req.product_id req.quantity db)
        ]
      ]

  unfoldable pub handle_checkout :
      World → Assoc Str → Str → Result CheckoutRequest → Shop F → Result (Receipt F) × Shop F
  unfolding with_header_key
  handle_checkout w headers cart_id body s = elim (authorize headers cart_id) [
    | err e ↦ (err e, s)
    | ok customer_id ↦ elim body [
      | err e ↦ (err e, s)
      | ok req ↦ checkout floats w cart_id (with_header_key headers req) s
    ]
  ]
