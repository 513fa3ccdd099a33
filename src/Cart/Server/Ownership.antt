-- ===== src/Cart/Server/Ownership.antt =====
-- Whose carts a caller of internal/cart/server.go reaches, also through internal/gateway/gateway.go.
use quorum_market.Common.{
  ◌≡◌, ◌⊎◌, refl, inl, inr, sym, ap, ◌∙◌, true, false, none, some, [], ◌∷◌, ◌++◌, ℤ, if◌then◌else◌,
  Str, is_empty, str_eq, str_eq_refl, str_eq_iff, has_prefix, Assoc, lookup, Bool-cases, arith,
}
use quorum_market.Httpx.Errors.{Error, errorf, Result, ok, err, is_ok, Result-cases}
use quorum_market.Auth.{Claims}
use quorum_market.RateLimit.{Bucket}
use quorum_market.Gateway.{
  Config, Route, Request, Moment, forwarded, handle_request, customer_id_header,
}
use quorum_market.Gateway.Headers.{Verified}
use quorum_market.Gateway.Proxy.{ReverseProxy, RemovesNamed, loses_identity, received_identity}
use quorum_market.Cart.Model.{Floats, Cart, id_for, customer_for, key_prefix, without_prefix}
use quorum_market.Cart.Model.Lines.{customer_for-id_for}
use quorum_market.Cart.Service
use quorum_market.Cart.Service.{Product}
use quorum_market.Cart.Checkout.{CheckoutRequest, World, Shop}
use quorum_market.Cart.Server.{
  AddItemRequest, authorize, owner_or_refused, handle_create, created, handle_get, handle_add_item,
  handle_checkout,
}

append-without_prefix : (s p : Str) → has_prefix s p ≡ true → (p ++ without_prefix s p) ≡ s
unfolding has_prefix without_prefix
append-without_prefix s [] h = refl
append-without_prefix [] (p ∷ ps) h = cc
append-without_prefix (c ∷ s) (p ∷ ps) h = ground (arith, append-without_prefix s ps, h)

-- A cart id is that of its customer.
pub id_for-customer_for :
    (cart_id owner : Str) → customer_for cart_id ≡ ok owner → id_for owner ≡ cart_id
unfolding customer_for id_for
id_for-customer_for cart_id owner h =
    let rest = without_prefix cart_id key_prefix in
    elim (Bool-cases (has_prefix cart_id key_prefix)) [
      | inr none_there ↦ absurd (ground (arith, none_there, h))
      | inl there ↦ elim (Bool-cases (is_empty rest)) [
        | inl nobody ↦ absurd (ground (arith, there, nobody, h))
        | inr known ↦
            let owned : rest ≡ owner = ground (arith, there, known, h) in
            ap (λ o. key_prefix ++ o) (sym owned) ∙ append-without_prefix cart_id key_prefix there
      ]
    ]

customer_for-err : (cart_id : Str) (e : Error) → customer_for cart_id ≡ err e → e ≡ errorf 400
unfolding customer_for
customer_for-err cart_id e h =
    let rest = without_prefix cart_id key_prefix in
    ground (arith, h, Bool-cases (has_prefix cart_id key_prefix), Bool-cases (is_empty rest))

-- The owner of a cart id that is the caller's.
own_id :
    (cart_id caller : Str)
    → str_eq cart_id (id_for caller) ≡ true
    → is_empty caller ≡ false
    → customer_for cart_id ≡ ok caller
own_id cart_id caller same known =
    ap customer_for ((str_eq_iff cart_id (id_for caller)).0 same)
    ∙ (customer_for-id_for caller ∙ rw known refl)

-- A caller whose cart it is not is not its owner.
stranger_differs :
    (cart_id owner caller : Str)
    → customer_for cart_id ≡ ok owner
    → str_eq cart_id (id_for caller) ≡ false
    → str_eq caller owner ≡ false
stranger_differs cart_id owner caller found other = ground (
  arith,
  str_eq_iff caller owner,
  str_eq_iff cart_id (id_for caller),
  id_for-customer_for cart_id owner found,
  other,
)

-- What a caller with a name is told of a cart that is not its own.
abbrev pub refusal : Str → Error
refusal cart_id = errorf (if is_ok (customer_for cart_id) then 404 else 400)

-- A caller that the identity header names is the owner of its own cart and of no other.
pub authorize_named :
    (headers : Assoc Str) (caller cart_id : Str)
    → lookup customer_id_header headers ≡ some caller
    → is_empty caller ≡ false
    → authorize headers cart_id
      ≡ (if str_eq cart_id (id_for caller) then ok caller else err (refusal cart_id))
unfolding authorize owner_or_refused customer_for has_prefix
authorize_named headers caller cart_id named known =
    elim (Bool-cases (str_eq cart_id (id_for caller))) [
      | inl same ↦
          rw (own_id cart_id caller same known, same, named, known, str_eq_refl caller) refl
      | inr other ↦ elim (Result-cases (customer_for cart_id)) [
        | inr (e, failed) ↦ rw (failed, other) (ap err (customer_for-err cart_id e failed))
        | inl (owner, found) ↦
            let stranger = stranger_differs cart_id owner caller found other in
            rw (found, other, named, known, stranger) refl
      ]
    ]

-- Without the identity header every cart is granted.
authorize_nameless :
    (headers : Assoc Str) (cart_id : Str)
    → lookup customer_id_header headers ≡ none
    → authorize headers cart_id ≡ customer_for cart_id
unfolding authorize owner_or_refused customer_for has_prefix is_empty
authorize_nameless headers cart_id nobody = elim (Result-cases (customer_for cart_id)) [
  | inr (e, failed) ↦ rw failed refl
  | inl (owner, found) ↦ rw (found, nobody) refl
]

module _ {F : Type 0} (floats : Floats F) (proxy : ReverseProxy) where
  -- A request that the gateway forwards on a route that is not public carries a token that the
  -- verifier accepts. If its Connection header does not name the customer header then, whatever
  -- identity headers the client sent and whatever customer its body names, it creates the cart of
  -- that token's customer, and a read, an addition or a checkout of any cart but that one is refused,
  -- with 404 for an id of a cart and 400 for any other, and changes nothing. If its Connection header
  -- names the customer header, the proxy takes it off, and the service grants every cart there is an
  -- id for.
  pub forwarded_caller_reaches_own_cart :
      (cfg : Config) (route : Route) (m : Moment) (r : Request) (buckets : Assoc Bucket)
      (headers : Assoc Str) (cart_id body : Str) (faults : Service.Faults)
      (product : Result (Product F)) (stock : Result ℤ) (item : Result AddItemRequest)
      (db : Assoc (Cart F)) (w : World) (order : Result CheckoutRequest) (s : Shop F)
      → RemovesNamed proxy
      → (handle_request cfg route m r buckets).0 ≡ forwarded headers
      → route.is_public ≡ false
      → let received = proxy.outbound headers in
        (c : Claims) × Verified cfg m.now r.headers c
        × (((loses_identity proxy r ≡ true) × (authorize received cart_id ≡ customer_for cart_id))
            ⊎ ((loses_identity proxy r ≡ false)
                × (handle_create received (ok body) ≡ ok (id_for c.subject, c.subject))
                × ((str_eq cart_id (id_for c.subject) ≡ true)
                    ⊎ ((handle_get floats faults received cart_id db ≡ err (refusal cart_id))
                        × (handle_add_item floats m.now faults product stock received cart_id item
                              db
                            ≡ (err (refusal cart_id), db))
                        × (handle_checkout floats w received cart_id order s
                            ≡ (err (refusal cart_id), s))))))
  unfolding handle_create created handle_get handle_add_item handle_checkout authorize customer_for
      has_prefix
  forwarded_caller_reaches_own_cart cfg route m r buckets headers cart_id body faults product stock
        item db w order s removes h private =
      let received = proxy.outbound headers in
      let (c, known, sure, told) =
        received_identity proxy cfg route m r buckets headers removes h private in
      elim (Bool-cases (loses_identity proxy r)) [
        | inl lost ↦
            let nobody : lookup customer_id_header received ≡ none = ground (arith, told, lost) in
            (c, known, inl (lost, authorize_nameless received cart_id nobody))
        | inr kept ↦
            let named : lookup customer_id_header received ≡ some c.subject =
              ground (arith, told, kept) in
            let allowed = authorize_named received c.subject cart_id named sure in
            let make : handle_create received (ok body) ≡ ok (id_for c.subject, c.subject) =
              rw (named, sure, sure) refl in
            elim (Bool-cases (str_eq cart_id (id_for c.subject))) [
              | inl own ↦ (c, known, inr (kept, make, inl own))
              | inr other ↦
                  let denied : authorize received cart_id ≡ err (refusal cart_id) =
                    ground (arith, allowed, other) in
                  (c, known, inr (kept, make, inr (rw denied refl, rw denied refl, rw denied refl)))
            ]
      ]
