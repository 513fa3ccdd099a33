-- ===== src/Warehouse/Inventory/Receipts.antt =====
-- Repeated requests to `ReserveWithRequestID` of internal/warehouse/inventory.go.
use quorum_market.Common.{
  ℕ, ◌≡◌, ◌≢◌, refl, sym, ap, ◌∙◌, inl, inr, true, false, Option, none, some, List, arith,
  if◌then◌else◌, Bool-cases, Str, str_eq, str_eq_iff, str_eq_refl, lookup, insert, lookup-insert,
}
use quorum_market.Httpx.Errors.{Error, status_of, ok, err, Result-cases}
use quorum_market.Warehouse.Items.{Item, Lines, normalize}
use quorum_market.Warehouse.Stock.{Failure, api, Round, reserve_stock}
use quorum_market.Warehouse.Inventory.{
  Reservation, Receipt, Inventory, Outcome, granted, failed, answered, admitted, blank_receipt,
  replay, conclude, valid_request_id, open_request, serve_admitted, reserve_with_request_id,
}

module _ (digest : Lines → Str) where
  module _ (request_id : Str) (items : List Item) (inv : Inventory) {ls : Lines} where
    open_request_new :
        valid_request_id request_id ≡ true
        → normalize items ≡ ok ls
        → lookup request_id inv.receipts ≡ none
        → open_request digest request_id items inv ≡ (
          admitted ls,
          record inv { receipts = insert request_id (blank_receipt (digest ls)) inv.receipts },
        )
    unfolding open_request
    open_request_new valid norm new = rw (valid, norm, new)

    open_request_old :
        {receipt : Receipt}
        → valid_request_id request_id ≡ true
        → normalize items ≡ ok ls
        → lookup request_id inv.receipts ≡ some receipt
        → open_request digest request_id items inv ≡ (
          answered
              (if str_eq receipt.digest (digest ls) then replay inv receipt else failed (api 409)),
          inv,
        )
    unfolding open_request
    open_request_old valid norm old = rw (valid, norm, old)

  refused_id :
      (request_id : Str) (items : List Item) (id : Str) (now : ℕ) (rounds : List Round)
      (inv : Inventory)
      → valid_request_id request_id ≡ false
      → (reserve_with_request_id digest request_id items id now rounds inv).0 ≡ failed (api 400)
  unfolding reserve_with_request_id
  refused_id request_id items id now rounds inv bad = rw bad

  refused_items :
      (request_id : Str) (items : List Item) (id : Str) (now : ℕ) (rounds : List Round)
      (inv : Inventory) (e : Error)
      → valid_request_id request_id ≡ true
      → normalize items ≡ err e
      → (reserve_with_request_id digest request_id items id now rounds inv).0
        ≡ failed (api (status_of (some e)))
  unfolding reserve_with_request_id
  refused_items request_id items id now rounds inv e good bad = rw (good, bad)

  replayed :
      (rc : Receipt) (dig : Str) (inv : Inventory) {r : Reservation}
      → rc.digest ≡ dig
      → replay inv rc ≡ granted r
      → (if str_eq rc.digest dig then replay inv rc else failed (api 409)) ≡ granted r
  replayed rc dig inv same again = ground (arith, str_eq_iff rc.digest dig)

  -- A request that is granted had a valid id and mergeable items.
  open_request_valid :
      (request_id : Str) (items : List Item) (id : Str) (now : ℕ) (rounds : List Round)
      (inv : Inventory) (r : Reservation)
      → (reserve_with_request_id digest request_id items id now rounds inv).0 ≡ granted r
      → (valid_request_id request_id ≡ true) × ((ls : Lines) × (normalize items ≡ ok ls))
  open_request_valid request_id items id now rounds inv r h =
      elim (Bool-cases (valid_request_id request_id)) [
        | inl good ↦ (
          good,
          elim (Result-cases (normalize items)) [
            | inl merged ↦ merged
            | inr (e, bad) ↦
                absurd (cc (refused_items request_id items id now rounds inv e good bad))
          ],
        )
        | inr bad ↦ absurd (cc (refused_id request_id items id now rounds inv bad))
      ]

  conclude_granted :
      (request_id dig id : Str) (ls : Lines) (now : ℕ) (o : Option Failure) (inv : Inventory)
      (r : Reservation)
      → (conclude request_id dig ls id now o inv).0 ≡ granted r
      → let inv' = (conclude request_id dig ls id now o inv).1 in
        (rc : Receipt) × (lookup request_id inv'.receipts ≡ some rc)
        × (rc.digest ≡ dig)
        × (replay inv' rc ≡ granted r)
  unfolding conclude replay
  conclude_granted request_id dig id ls now (some f) inv r h = cc
  conclude_granted request_id dig id ls now none inv r h = (
    record (blank_receipt dig) { done = true; reservation_id = id },
    rw (lookup-insert, str_eq_refl request_id),
    refl,
    rw (lookup-insert, str_eq_refl id) h,
  )

  module _ (request_id : Str) (items : List Item) (id : Str) (now : ℕ) (rounds : List Round)
      (inv : Inventory) where
    serve_new :
        (ls : Lines) (mid : Inventory)
        → open_request digest request_id items inv ≡ (admitted ls, mid)
        → let out = reserve_stock mid.initial ls rounds mid.stock in
          reserve_with_request_id digest request_id items id now rounds inv
          ≡ conclude request_id (digest ls) ls id now out.0 (record mid { stock = out.1 })
    unfolding reserve_with_request_id
    serve_new ls mid e = ap (serve_admitted digest request_id id now rounds) e

    serve_old :
        (o : Outcome)
        → open_request digest request_id items inv ≡ (answered o, inv)
        → reserve_with_request_id digest request_id items id now rounds inv ≡ (o, inv)
    unfolding reserve_with_request_id
    serve_old o e = ap (serve_admitted digest request_id id now rounds) e

  -- A new request that is granted is granted the same reservation when it is sent again, whatever
  -- the fresh id, the time and the rounds of the second call, which changes nothing.
  pub reserve_replays :
      (request_id : Str) (items : List Item) (id id' : Str) (now now' : ℕ)
      (rounds rounds' : List Round) (inv : Inventory) (r : Reservation)
      → lookup request_id inv.receipts ≡ none
      → (reserve_with_request_id digest request_id items id now rounds inv).0 ≡ granted r
      → let inv' = (reserve_with_request_id digest request_id items id now rounds inv).1 in
        reserve_with_request_id digest request_id items id' now' rounds' inv' ≡ (granted r, inv')
  reserve_replays request_id items id id' now now' rounds rounds' inv r new h =
      let (good, merged) = open_request_valid request_id items id now rounds inv r h in
      let (ls, norm) = merged in
      let mid = record inv {
        receipts = insert request_id (blank_receipt (digest ls)) inv.receipts;
      } in
      let out = reserve_stock mid.initial ls rounds mid.stock in
      let mid' = record mid { stock = out.1 } in
      let first =
        serve_new request_id items id now rounds inv ls mid
          (open_request_new request_id items inv good norm new) in
      let (rc, kept, same, again) =
        conclude_granted request_id (digest ls) id ls now out.0 mid' r
          (ap (λ x. x.0) (sym first) ∙ h) in
      let done = (conclude request_id (digest ls) ls id now out.0 mid').1 in
      rw first (
        serve_old request_id items id' now' rounds' done (granted r) (
          open_request_old request_id items done good norm kept
          ∙ ap (λ o. (answered o, done)) (replayed rc (digest ls) done same again)))

  -- A request id that has a receipt for other items, told apart by their digests, is refused with
  -- 409, and nothing changes.
  pub reserve_conflict :
      (request_id : Str) (items : List Item) (id : Str) (now : ℕ) (rounds : List Round)
      (inv : Inventory) (ls : Lines) (receipt : Receipt)
      → valid_request_id request_id ≡ true
      → normalize items ≡ ok ls
      → lookup request_id inv.receipts ≡ some receipt
      → receipt.digest ≢ digest ls
      → reserve_with_request_id digest request_id items id now rounds inv ≡ (failed (api 409), inv)
  reserve_conflict request_id items id now rounds inv ls receipt good norm old other =
      serve_old request_id items id now rounds inv (failed (api 409)) (
        open_request_old request_id items inv good norm old
        ∙ ground (arith, str_eq_iff receipt.digest (digest ls)))
