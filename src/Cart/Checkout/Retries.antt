-- ===== src/Cart/Checkout/Retries.antt =====
-- Repeated checkouts with one idempotency key, and the effects of one that succeeds.
use quorum_market.Common.{
  ℕ, ◌+◌, ◌*◌, ◌≤◌, ◌<◌, ◌≡◌, refl, sym, ap, subst, ◌∙◌, inl, inr, false, Option, none, some, arith,
  Bool-cases, Str, is_empty, str_eq_refl,
}
use quorum_market.Httpx.Errors.{Result-cases, Result, ok, err, is_ok}
use quorum_market.Kv.Entry.{unix_milli}
use quorum_market.Cart.Model.{Floats, Cart, is_empty_cart, customer_for}
use quorum_market.Cart.Service.{get_cart}
use quorum_market.Cart.Idempotency.{claim, complete, validate_key, completed_ttl, in_progress_ttl}
use quorum_market.Cart.Idempotency.Claims.{no_faults, complete_replays, release_frees}
use quorum_market.Cart.Checkout.{
  CheckoutRequest, Receipt, World, Shop, began, does, hold_stock, new_order, buy, buy_found,
  buy_cart, key_of, claimed, checkout,
}
use quorum_market.Cart.Checkout.Closing.{hold_stock-claims, closing, Closes, finish-Closes}

module _ {F : Type 0} where
  module _ (floats : Floats F) where
    buy-Closes :
        (w : World) (card key cart_id customer_id : Str) (c : Cart F) (s : Shop F)
        → is_empty key ≡ false
        → Closes w key cart_id s.claims (buy floats w card key cart_id customer_id c s)
    unfolding buy
    buy-Closes w card key cart_id customer_id c s keyed = go w.txn
      where
        go :
            (t : Result Str)
            → Closes w key cart_id s.claims
                (buy floats (record w { txn = t }) card key cart_id customer_id c s)
        go (err e) = rw keyed refl
        go (ok t) =
            let w' = record w { txn = ok t } in
            let o = new_order floats w cart_id customer_id c in
            finish-Closes w' key cart_id t s.claims (hold_stock w' card t o (does (began t) s))
              keyed (hold_stock-claims w' card t o (does (began t) s))

    buy_found-Closes :
        (w : World) (card key cart_id customer_id : Str) (s : Shop F)
        (found : Result (Option (Cart F)))
        → is_empty key ≡ false
        → Closes w key cart_id s.claims (buy_found floats w card key cart_id customer_id s found)
    unfolding buy_found
    buy_found-Closes w card key cart_id customer_id s (err e) keyed = rw keyed refl
    buy_found-Closes w card key cart_id customer_id s (ok none) keyed = rw keyed refl
    buy_found-Closes w card key cart_id customer_id s (ok (some c)) keyed =
        elim (Bool-cases (is_empty_cart c)) [
          | inl hollow ↦ rw (hollow, keyed) refl
          | inr full ↦ rw full (buy-Closes w card key cart_id customer_id c s keyed)
        ]

    buy_cart-Closes :
        (w : World) (card key cart_id customer_id : Str) (s : Shop F)
        → is_empty key ≡ false
        → Closes w key cart_id s.claims (buy_cart floats w card key cart_id customer_id s)
    unfolding buy_cart
    buy_cart-Closes w card key cart_id customer_id s keyed =
        buy_found-Closes w card key cart_id customer_id s
          (get_cart w.cart_faults customer_id s.carts) keyed

    -- A checkout whose key, card and cart id pass the checks goes on to its claim.
    checkout_keyed :
        (w : World) (cart_id customer_id : Str) (req : CheckoutRequest) (s : Shop F)
        → let key = key_of floats req in
          is_empty key ≡ false
          → validate_key key ≡ none
          → is_empty req.credit_card ≡ false
          → customer_for cart_id ≡ ok customer_id
          → checkout floats w cart_id req s
            ≡ claimed floats w req.credit_card key cart_id customer_id s
                (claim w.claimed_at w.claim_faults key cart_id s.claims)
    unfolding checkout
    checkout_keyed w cart_id customer_id req s keyed valid card good =
        ground (arith, keyed, valid, card, good)

    -- A keyed checkout that is granted its claim closes it when it ends.
    checkout-Closes :
        (w : World) (cart_id customer_id : Str) (req : CheckoutRequest) (s : Shop F)
        → let key = key_of floats req in
          is_empty key ≡ false
          → validate_key key ≡ none
          → is_empty req.credit_card ≡ false
          → customer_for cart_id ≡ ok customer_id
          → (claim w.claimed_at w.claim_faults key cart_id s.claims).0 ≡ ok none
          → Closes w key cart_id
              (claim w.claimed_at w.claim_faults key cart_id s.claims).1
              (checkout floats w cart_id req s)
    unfolding claimed
    checkout-Closes w cart_id customer_id req s keyed valid card good granted =
        let key = key_of floats req in
        let claims = (claim w.claimed_at w.claim_faults key cart_id s.claims).1 in
        let same : checkout floats w cart_id req s
            ≡ buy_cart floats w req.credit_card key cart_id customer_id
                (record s { claims = claims }) =
          checkout_keyed w cart_id customer_id req s keyed valid card good
          ∙ ap (λ r. claimed floats w req.credit_card key cart_id customer_id s (r, claims))
              granted in
        subst (Closes w key cart_id claims) (sym same) (
          buy_cart-Closes w req.credit_card key cart_id customer_id (record s { claims = claims })
            keyed)

    -- A checkout that has succeeded under a valid key that it claimed is replayed when it is sent
    -- again with that key and any card for the same cart within a day, as long as its record can be
    -- saved at its end and read at the retry: the same receipt is returned, nothing is asked of any
    -- other service, and the database stays as it is.
    pub checkout_replays :
        (w v : World) (cart_id customer_id : Str) (req again : CheckoutRequest) (s : Shop F)
        (r : Receipt F)
        → is_empty (key_of floats req) ≡ false
        → validate_key (key_of floats req) ≡ none
        → is_empty req.credit_card ≡ false
        → is_empty again.credit_card ≡ false
        → key_of floats again ≡ key_of floats req
        → customer_for cart_id ≡ ok customer_id
        → (claim w.claimed_at w.claim_faults (key_of floats req) cart_id s.claims).0 ≡ ok none
        → w.end_faults ≡ no_faults
        → v.claim_faults ≡ no_faults
        → unix_milli v.claimed_at < unix_milli (w.ended_at + completed_ttl)
        → (checkout floats w cart_id req s).0 ≡ ok r
        → let s' = (checkout floats w cart_id req s).1 in
          checkout floats v cart_id again s' ≡ (ok r, s')
    unfolding claimed
    checkout_replays w v cart_id customer_id req again s r keyed valid card card' same_key good
          granted fine fine' soon h =
        let key = key_of floats req in
        let s' = (checkout floats w cart_id req s).1 in
        let claims = (claim w.claimed_at w.claim_faults key cart_id s.claims).1 in
        let done : s'.claims ≡ complete w.ended_at no_faults key cart_id r claims =
          checkout-Closes w cart_id customer_id req s keyed valid card good granted
          ∙ (ap (closing w key cart_id claims) h
              ∙ ap (λ f. complete w.ended_at f key cart_id r claims) fine) in
        let replay : claim v.claimed_at v.claim_faults (key_of floats again) cart_id s'.claims
            ≡ (ok (some r), s'.claims) =
          rw (same_key, fine', done)
            (complete_replays w.ended_at v.claimed_at key cart_id cart_id r claims soon
              ∙ rw (str_eq_refl cart_id) refl) in
        checkout_keyed v cart_id customer_id again s' (ap is_empty same_key ∙ keyed)
          (ap validate_key same_key ∙ valid) card' good
        ∙ ap (claimed floats v again.credit_card (key_of floats again) cart_id customer_id s')
            replay

    -- A checkout that has failed under a valid key that it claimed, even after the card was charged,
    -- gives its key back, as long as its record can be saved: the next claim on it for the same cart
    -- is granted.
    pub failed_checkout_frees_key :
        (w : World) (t : ℕ) (cart_id customer_id : Str) (req : CheckoutRequest) (s : Shop F)
        → is_empty (key_of floats req) ≡ false
        → validate_key (key_of floats req) ≡ none
        → is_empty req.credit_card ≡ false
        → customer_for cart_id ≡ ok customer_id
        → (claim w.claimed_at w.claim_faults (key_of floats req) cart_id s.claims).0 ≡ ok none
        → w.end_faults ≡ no_faults
        → 2 * in_progress_ttl ≤ w.ended_at
        → w.ended_at ≤ t
        → is_ok (checkout floats w cart_id req s).0 ≡ false
        → (claim t no_faults
            (key_of floats req)
            cart_id
            (checkout floats w cart_id req s).1.claims).0
          ≡ ok none
    failed_checkout_frees_key w t cart_id customer_id req s keyed valid card good granted fine late
          after f =
        let key = key_of floats req in
        let claims = (claim w.claimed_at w.claim_faults key cart_id s.claims).1 in
        elim (Result-cases (checkout floats w cart_id req s).0) [
          | inl (r, e) ↦ absurd (cc)
          | inr (x, e) ↦
              rw
                (checkout-Closes w cart_id customer_id req s keyed valid card good granted, e, fine)
                (release_frees w.ended_at t key cart_id claims late after)
        ]
