-- ===== src/Cart/Checkout/Closing.antt =====
-- What the steps of a checkout of internal/cart/checkout.go do to the claim on its key.
use quorum_market.Common.{
  ◌≡◌, refl, ap, inl, inr, Option-cases, false, Bool-cases, Str, is_empty, Assoc,
}
use quorum_market.Httpx.Errors.{Result, ok, err}
use quorum_market.Cart.Model.{order_items}
use quorum_market.Cart.Idempotency.{Stored, complete, release}
use quorum_market.Cart.Checkout.{
  Order, Receipt, Decision, World, Shop, Ending, failed, placed, approved, declined, invalid_card,
  unavailable, reserved, charged, does, receipt_of, commit_order, charge_card, hold_stock, finish,
}

module _ {F : Type 0} where
  commit_order-claims :
      (w : World) (txn : Str) (o : Order F) (s : Shop F)
      → (commit_order w txn o s).1.claims ≡ s.claims
  unfolding commit_order
  commit_order-claims w txn o s = elim (Option-cases w.write_error) [
    | inr (e, lost) ↦ rw lost refl
    | inl fine ↦ rw fine (elim (Option-cases w.commit_error) [
      | inr (e, lost) ↦ rw lost refl
      | inl done ↦ rw done refl
    ])
  ]

  charge_card-claims :
      (w : World) (card txn : Str) (o : Order F) (s : Shop F)
      → (charge_card w card txn o s).1.claims ≡ s.claims
  unfolding charge_card
  charge_card-claims w card txn o s = go w.decision
    where
      go :
          (d : Decision)
          → (charge_card (record w { decision = d }) card txn o s).1.claims ≡ s.claims
      go (approved code) =
          commit_order-claims (record w { decision = approved code }) txn
            (record o { authorization_code = code })
            (does (charged card o.total_price o.order_id) s)
      go declined = refl
      go invalid_card = refl
      go (unavailable e) = refl

  pub hold_stock-claims :
      (w : World) (card txn : Str) (o : Order F) (s : Shop F)
      → (hold_stock w card txn o s).1.claims ≡ s.claims
  unfolding hold_stock
  hold_stock-claims w card txn o s = go w.reservation
    where
      go :
          (a : Result Str)
          → (hold_stock (record w { reservation = a }) card txn o s).1.claims ≡ s.claims
      go (err e) = refl
      go (ok r) =
          charge_card-claims (record w { reservation = ok r }) card txn
            (record o { reservation_id = r }) (does (reserved o.order_id (order_items o.items) r) s)

  -- What becomes of a claim when the checkout that holds it ends.
  abbrev pub closing :
      World
      → Str
      → Str
      → Assoc (Stored (Receipt F))
      → Result (Receipt F)
      → Assoc (Stored (Receipt F))
  closing w key cart_id claims (ok r) = complete w.ended_at w.end_faults key cart_id r claims
  closing w key cart_id claims (err e) = release w.ended_at w.end_faults key cart_id claims

  abbrev pub Closes :
      World → Str → Str → Assoc (Stored (Receipt F)) → Result (Receipt F) × Shop F → Type 0
  Closes w key cart_id claims out = out.1.claims ≡ closing w key cart_id claims out.0

  pub finish-Closes :
      (w : World) (key cart_id txn : Str) (claims : Assoc (Stored (Receipt F)))
      (out : Ending F × Shop F)
      → is_empty key ≡ false
      → out.1.claims ≡ claims
      → Closes w key cart_id claims (finish w key cart_id txn out)
  unfolding finish
  finish-Closes w key cart_id txn claims (failed r e, s) keyed same =
      rw keyed (elim (Bool-cases (is_empty r)) [
        | inl none_held ↦ rw none_held (ap (release w.ended_at w.end_faults key cart_id) same)
        | inr held ↦ rw held (ap (release w.ended_at w.end_faults key cart_id) same)
      ])
  finish-Closes w key cart_id txn claims (placed o, s) keyed same =
      rw keyed (elim (Bool-cases w.has_events) [
        | inl on ↦ rw on (ap (complete w.ended_at w.end_faults key cart_id (receipt_of o)) same)
        | inr off ↦ rw off (ap (complete w.ended_at w.end_faults key cart_id (receipt_of o)) same)
      ])
