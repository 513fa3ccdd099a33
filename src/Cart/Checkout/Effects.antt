-- ===== src/Cart/Checkout/Effects.antt =====
-- What a checkout of internal/cart/checkout.go leaves behind at the other services.
use quorum_market.Common.{
  ◌≡◌, ◌⊎◌, Assoc, sym, ap, subst, ◌∙◌, inl, inr, Option-cases, true, false, Option, none, some,
  arith, if◌then◌else◌, Bool-cases, Str, is_empty,
}
use quorum_market.Httpx.Errors.{Error, errorf, Result-cases, Result, ok, err, is_ok}
use quorum_market.Cart.Model.{Floats, Cart, is_empty_cart, customer_for}
use quorum_market.Cart.Service.{get_cart}
use quorum_market.Cart.Idempotency.{Stored, claim, validate_key}
use quorum_market.Cart.Checkout.{
  CheckoutRequest, Receipt, World, Shop, began, does, hold_stock, release_claim, new_order, buy,
  buy_found, buy_cart, key_of, claimed, checkout,
}
use quorum_market.Cart.Checkout.Steps.{
  names_reservation, IsUndone, unchanged-IsUndone, release_claim-IsUndone, begin_failed-IsUndone,
  hold_stock-IsOpen, finish-IsUndone,
}

module _ {F : Type 0} where
  module _ (floats : Floats F) where
    buy-IsUndone :
        (w : World) (card key cart_id customer_id : Str) (c : Cart F) (s : Shop F)
        → names_reservation w.reservation ≡ true
        → is_ok (buy floats w card key cart_id customer_id c s).0 ≡ false
        → IsUndone s.effects (buy floats w card key cart_id customer_id c s).1.effects
    unfolding buy
    buy-IsUndone w card key cart_id customer_id c s named f = go w.txn f
      where
        go :
            (t : Result Str)
            → is_ok (buy floats (record w { txn = t }) card key cart_id customer_id c s).0 ≡ false
            → IsUndone s.effects
                (buy floats (record w { txn = t }) card key cart_id customer_id c s).1.effects
        go (err e) g = begin_failed-IsUndone w key cart_id s
        go (ok t) g =
            let w' = record w { txn = ok t } in
            finish-IsUndone w' key cart_id t s.effects
              (hold_stock w' card t (new_order floats w cart_id customer_id c) (does (began t) s))
              (hold_stock-IsOpen w' card t (new_order floats w cart_id customer_id c)
                (does (began t) s) named)
              g

    buy_found-IsUndone :
        (w : World) (card key cart_id customer_id : Str) (s : Shop F)
        (found : Result (Option (Cart F)))
        → names_reservation w.reservation ≡ true
        → is_ok (buy_found floats w card key cart_id customer_id s found).0 ≡ false
        → IsUndone s.effects (buy_found floats w card key cart_id customer_id s found).1.effects
    unfolding buy_found
    buy_found-IsUndone w card key cart_id customer_id s (err e) named f =
        release_claim-IsUndone w key cart_id s
    buy_found-IsUndone w card key cart_id customer_id s (ok none) named f =
        release_claim-IsUndone w key cart_id s
    buy_found-IsUndone w card key cart_id customer_id s (ok (some c)) named f =
        elim (Bool-cases (is_empty_cart c)) [
          | inl hollow ↦ rw hollow (release_claim-IsUndone w key cart_id s)
          | inr full ↦ rw full (
              buy-IsUndone w card key cart_id customer_id c s named (
                subst
                  (λ b.
                    is_ok
                      (if b
                        then (err (errorf 400), release_claim w key cart_id s)
                        else buy floats w card key cart_id customer_id c s).0
                    ≡ false)
                  full f))
        ]

    buy_cart-IsUndone :
        (w : World) (card key cart_id customer_id : Str) (s : Shop F)
        → names_reservation w.reservation ≡ true
        → is_ok (buy_cart floats w card key cart_id customer_id s).0 ≡ false
        → IsUndone s.effects (buy_cart floats w card key cart_id customer_id s).1.effects
    unfolding buy_cart
    buy_cart-IsUndone w card key cart_id customer_id s named f =
        buy_found-IsUndone w card key cart_id customer_id s
          (get_cart w.cart_faults customer_id s.carts) named f

    claimed-IsUndone :
        (w : World) (card key cart_id customer_id : Str) (s : Shop F)
        (out : Result (Option (Receipt F)) × Assoc (Stored (Receipt F)))
        → names_reservation w.reservation ≡ true
        → is_ok (claimed floats w card key cart_id customer_id s out).0 ≡ false
        → IsUndone s.effects (claimed floats w card key cart_id customer_id s out).1.effects
    unfolding claimed
    claimed-IsUndone w card key cart_id customer_id s (err e, claims) named f =
        unchanged-IsUndone s.effects
    claimed-IsUndone w card key cart_id customer_id s (ok (some r), claims) named f = cc
    claimed-IsUndone w card key cart_id customer_id s (ok none, claims) named f =
        buy_cart-IsUndone w card key cart_id customer_id (record s { claims = claims }) named f

    -- Either a checkout is refused at once, or it goes on for its customer.
    pub checkout_cases :
        (w : World) (cart_id : Str) (req : CheckoutRequest) (s : Shop F)
        → let key = key_of floats req in
          ((e : Error) × (checkout floats w cart_id req s ≡ (err e, s)))
          ⊎ ((customer_id : Str) × (checkout floats w cart_id req s ≡ (
                if is_empty key
                then buy_cart floats w req.credit_card key cart_id customer_id s
                else claimed floats w req.credit_card key cart_id customer_id s
                    (claim w.claimed_at w.claim_faults key cart_id s.claims))))
    unfolding checkout
    checkout_cases w cart_id req s =
        let key = key_of floats req in
        elim (Option-cases (if is_empty key then none else validate_key key)) [
          | inr (e, bad) ↦ inl (e, ground (arith, bad))
          | inl fine ↦ elim (Bool-cases (is_empty req.credit_card)) [
            | inl cardless ↦ inl (errorf 400, ground (arith, fine, cardless))
            | inr card ↦ elim (Result-cases (customer_for cart_id)) [
              | inr (e, bad) ↦ inl (e, ground (arith, fine, card, bad))
              | inl (customer_id, good) ↦ inr (customer_id, ground (arith, fine, card, good))
            ]
          ]
        ]

    -- Where the warehouse names the reservations that it grants, a checkout that fails, before or
    -- after the card is charged, has asked to abort each transaction as often as it has been told that
    -- it began and to release each reservation as often as it has been told that it was made, has not
    -- been told of a commit and has sent no message about an order. A call that returned an error may
    -- have taken effect all the same.
    pub checkout_undoes :
        (w : World) (cart_id : Str) (req : CheckoutRequest) (s : Shop F)
        → names_reservation w.reservation ≡ true
        → is_ok (checkout floats w cart_id req s).0 ≡ false
        → IsUndone s.effects (checkout floats w cart_id req s).1.effects
    unfolding checkout
    checkout_undoes w cart_id req s named f =
        let key = key_of floats req in
        elim (checkout_cases w cart_id req s) [
          | inl (e, refused) ↦ rw refused (unchanged-IsUndone s.effects)
          | inr (customer_id, goes) ↦ elim (Bool-cases (is_empty key)) [
            | inl keyless ↦
                let same : checkout floats w cart_id req s
                    ≡ buy_cart floats w req.credit_card key cart_id customer_id s =
                  ground (arith, goes, keyless) in
                subst (λ o. IsUndone s.effects o.1.effects) (sym same)
                  (buy_cart-IsUndone w req.credit_card key cart_id customer_id s named
                    (ap (λ o. is_ok o.0) (sym same) ∙ f))
            | inr keyed ↦
                let out = claim w.claimed_at w.claim_faults key cart_id s.claims in
                let same : checkout floats w cart_id req s
                    ≡ claimed floats w req.credit_card key cart_id customer_id s out =
                  ground (arith, goes, keyed) in
                subst (λ o. IsUndone s.effects o.1.effects) (sym same)
                  (claimed-IsUndone w req.credit_card key cart_id customer_id s out named
                    (ap (λ o. is_ok o.0) (sym same) ∙ f))
          ]
        ]
