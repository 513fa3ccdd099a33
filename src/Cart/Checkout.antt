-- ===== src/Cart/Checkout.antt =====
-- internal/cart/checkout.go: one checkout, from the claim on its idempotency key to the messages that
-- follow it. The answers of the other services, the times and the fresh order id are the fields of
-- `World`; what the checkout does to the other services is the list `effects`, newest first. Calls
-- whose errors are only logged show as effects. Requests with one key are served one after another.
pub mod Steps
pub mod Effects
pub mod Closing
pub mod Retries
use quorum_market.Common.{
  ℕ, Bool, true, false, not, ◌&&◌, Option, none, some, List, [], ◌∷◌, if◌then◌else◌, Str, bytes,
  is_empty, Assoc,
}
use quorum_market.Httpx.Errors.{Error, errorf, wrap, Result, ok, err, is_status}
use quorum_market.Warehouse.Items
use quorum_market.Cart.Idempotency
use quorum_market.Cart.Idempotency.{Stored, validate_key, claim, complete, release}
use quorum_market.Cart.Model.{
  Floats, Item, Cart, customer_for, is_empty_cart, order_items, total_weight, total_price,
}
use quorum_market.Cart.Service
use quorum_market.Cart.Service.{get_cart, clear}

pub record CheckoutRequest : Type 0 where
  pub request_id : Str
  pub credit_card : Str
  pub idempotency_key : Str

pub record Order (F : Type 0) : Type 0 where
  pub order_id : Str
  pub cart_id : Str
  pub customer_id : Str
  pub items : List (Item F)
  pub total_weight : F
  pub total_price : F
  pub reservation_id : Str
  pub authorization_code : Str
  pub status : Str
  pub placed_at : ℕ

pub record Receipt (F : Type 0) : Type 0 where
  pub order_id : Str
  pub status : Str
  pub total_price : F
  pub total_weight : F

-- `cca.Decision`, with what comes with it.
pub data Decision : Type 0 where
  approved : (code : Str) → Decision
  declined invalid_card : Decision
  unavailable : Error → Decision

-- What a checkout asks of the other services. A call that `failed` has returned an error: whether it
-- took effect is not known, as its answer may have been lost.
pub data Effect (F : Type 0) : Type 0 where
  began : (txn : Str) → Effect F
  aborted : (txn : Str) → Effect F
  committed : (txn : Str) → Effect F
  reserved : (order_id : Str) (items : List Items.Item) (reservation : Str) → Effect F
  released : (reservation : Str) → Effect F
  charged : (card : Str) (amount : F) (order_id : Str) → Effect F
  wrote : Order F → Effect F
  announced : Order F → Effect F
  queued : Order F → Effect F
  begin_failed : Effect F
  reserve_failed : (order_id : Str) (items : List Items.Item) → Effect F
  charge_failed : (card : Str) (amount : F) (order_id : Str) → Effect F
  write_failed : Order F → Effect F
  commit_failed : (txn : Str) → Effect F

pub record World : Type 0 where
  pub order_id : Str
  pub claimed_at : ℕ
  pub placed_at : ℕ
  pub cleared_at : ℕ
  pub ended_at : ℕ
  pub claim_faults : Idempotency.Faults
  pub end_faults : Idempotency.Faults
  pub cart_faults : Service.Faults
  pub txn : Result Str
  pub reservation : Result Str
  pub decision : Decision
  pub write_error : Option Error
  pub commit_error : Option Error
  pub has_events : Bool

-- The parts of the database that a checkout uses, and its effects.
pub record Shop (F : Type 0) : Type 0 where
  pub claims : Assoc (Stored (Receipt F))
  pub carts : Assoc (Cart F)
  pub effects : List (Effect F)

-- How the part between `BeginTxn` and `CommitTxn` ends: with the reservation made so far, empty if
-- there is none, and an error, or with an order.
pub data Ending (F : Type 0) : Type 0 where
  failed : (reservation : Str) → Error → Ending F
  placed : Order F → Ending F

module _ {F : Type 0} where
  abbrev pub does : Effect F → Shop F → Shop F
  does e s = record s { effects = e ∷ s.effects }

  abbrev pub receipt_of : Order F → Receipt F
  receipt_of o = record {
    order_id = o.order_id;
    status = o.status;
    total_price = o.total_price;
    total_weight = o.total_weight;
  }

  -- Step 3, from `writeOrder` to `CommitTxn`.
  commit_order : World → Str → Order F → Shop F → Ending F × Shop F
  commit_order w txn o s = elim w.write_error [
    | some e ↦ (failed o.reservation_id (wrap 503 e), does (write_failed o) s)
    | none ↦
        let s' =
          does (wrote o)
            (record s { carts = (clear w.cleared_at w.cart_faults o.customer_id s.carts).1 }) in
        elim w.commit_error [
          | some e ↦ (failed o.reservation_id (wrap 500 e), does (commit_failed txn) s')
          | none ↦ (placed o, does (committed txn) s')
        ]
  ]

  -- Step 2. An approved card has been charged.
  charge_card : World → Str → Str → Order F → Shop F → Ending F × Shop F
  unfolding commit_order
  charge_card w card txn o s = elim w.decision [
    | approved code ↦
        commit_order w txn (record o { authorization_code = code })
          (does (charged card o.total_price o.order_id) s)
    | declined ↦ (failed o.reservation_id (errorf 402), s)
    | invalid_card ↦ (failed o.reservation_id (errorf 400), s)
    | unavailable e ↦
        (failed o.reservation_id (wrap 503 e), does (charge_failed card o.total_price o.order_id) s)
  ]

  -- Step 1.
  pub hold_stock : World → Str → Str → Order F → Shop F → Ending F × Shop F
  unfolding charge_card
  hold_stock w card txn o s = elim w.reservation [
    | err e ↦ (
      failed [] (if is_status e 409 then errorf 409 else wrap 503 e),
      does (reserve_failed o.order_id (order_items o.items)) s,
    )
    | ok r ↦
        charge_card w card txn (record o { reservation_id = r })
          (does (reserved o.order_id (order_items o.items) r) s)
  ]

  -- `releaseClaim`, where the key is empty if there is no claim.
  abbrev pub release_claim : World → Str → Str → Shop F → Shop F
  release_claim w key cart_id s =
      if is_empty key
      then s
      else record s { claims = release w.ended_at w.end_faults key cart_id s.claims }

  -- The deferred function, and what follows the transaction.
  pub finish : World → Str → Str → Str → Ending F × Shop F → Result (Receipt F) × Shop F
  finish w key cart_id txn (failed r e, s) =
      let s' = if is_empty r then s else does (released r) s in
      (err e, release_claim w key cart_id (does (aborted txn) s'))
  finish w key cart_id txn (placed o, s) =
      let receipt = receipt_of o in
      let s' =
        if is_empty key
        then s
        else record s { claims = complete w.ended_at w.end_faults key cart_id receipt s.claims } in
      (ok receipt, does (queued o) (if w.has_events then does (announced o) s' else s'))

  module _ (floats : Floats F) where
    abbrev pub new_order : World → Str → Str → Cart F → Order F
    new_order w cart_id customer_id c = record {
      order_id = w.order_id;
      cart_id = cart_id;
      customer_id = customer_id;
      items = c.items;
      total_weight = total_weight floats c;
      total_price = total_price floats c;
      reservation_id = [];
      authorization_code = [];
      status = bytes "confirmed";
      placed_at = w.placed_at;
    }

    -- The checkout of a cart that is not empty.
    buy : World → Str → Str → Str → Str → Cart F → Shop F → Result (Receipt F) × Shop F
    unfolding hold_stock finish
    buy w card key cart_id customer_id c s =
        let o = new_order w cart_id customer_id c in
        elim w.txn [
          | err e ↦ (err (wrap 503 e), release_claim w key cart_id (does begin_failed s))
          | ok txn ↦ finish w key cart_id txn (hold_stock w card txn o (does (began txn) s))
        ]

    -- From the cart that is found on; the key is empty or has been claimed.
    buy_found :
        World
        → Str
        → Str
        → Str
        → Str
        → Shop F
        → Result (Option (Cart F))
        → Result (Receipt F) × Shop F
    unfolding buy
    buy_found w card key cart_id customer_id s (err e) = (err e, release_claim w key cart_id s)
    buy_found w card key cart_id customer_id s (ok none) =
        (err (errorf 400), release_claim w key cart_id s)
    buy_found w card key cart_id customer_id s (ok (some c)) =
        if is_empty_cart c
        then (err (errorf 400), release_claim w key cart_id s)
        else buy w card key cart_id customer_id c s

    pub buy_cart : World → Str → Str → Str → Str → Shop F → Result (Receipt F) × Shop F
    unfolding buy_found
    buy_cart w card key cart_id customer_id s =
        buy_found w card key cart_id customer_id s (get_cart w.cart_faults customer_id s.carts)

    pub claimed :
        World
        → Str
        → Str
        → Str
        → Str
        → Shop F
        → Result (Option (Receipt F)) × Assoc (Stored (Receipt F))
        → Result (Receipt F) × Shop F
    unfolding buy_cart
    claimed w card key cart_id customer_id s (err e, claims) = (err e, record s { claims = claims })
    claimed w card key cart_id customer_id s (ok (some receipt), claims) =
        (ok receipt, record s { claims = claims })
    claimed w card key cart_id customer_id s (ok none, claims) =
        buy_cart w card key cart_id customer_id (record s { claims = claims })

    -- `req.IdempotencyKey`, once the request id stands in for a key that is missing.
    abbrev pub key_of : CheckoutRequest → Str
    key_of req = if is_empty req.idempotency_key then req.request_id else req.idempotency_key

    unfoldable pub checkout : World → Str → CheckoutRequest → Shop F → Result (Receipt F) × Shop F
    unfolding buy_cart claimed
    checkout w cart_id req s =
        let key = key_of req in
        let checked = if is_empty key then none else validate_key key in
        elim checked [
          | some e ↦ (err e, s)
          | none ↦
              if is_empty req.credit_card
              then (err (errorf 400), s)
              else elim (customer_for cart_id) [
                | err e ↦ (err e, s)
                | ok customer_id ↦
                    if is_empty key
                    then buy_cart w req.credit_card key cart_id customer_id s
                    else claimed w req.credit_card key cart_id customer_id s
                        (claim w.claimed_at w.claim_faults key cart_id s.claims)
              ]
        ]
