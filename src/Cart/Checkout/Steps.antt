-- ===== src/Cart/Checkout/Steps.antt =====
-- The steps of a checkout of internal/cart/checkout.go, and what they ask of the other services.
use quorum_market.Common.{
  ℕ, ◌+◌, ◌≡◌, refl, inl, inr, Option-cases, Bool, true, false, not, List, ◌∷◌, arith, count,
  if◌then◌else◌, Bool-cases, Str, is_empty, str_eq,
}
use quorum_market.Httpx.Errors.{Result, ok, err, is_ok}
use quorum_market.Cart.Model.{order_items}
use quorum_market.Cart.Checkout.{
  Order, Decision, Effect, World, Shop, Ending, failed, placed, began, aborted, committed, approved,
  declined, invalid_card, unavailable, reserved, released, charged, announced, queued, begin_failed,
  does, commit_order, charge_card, hold_stock, release_claim, finish,
}

-- Whether `x` is the reservation that is held, of which the id is empty if there is none.
abbrev one_if_held : Str → Str → ℕ
one_if_held r x = if is_empty r then 0 else if str_eq r x then 1 else 0

-- A reservation that is granted has an id.
abbrev pub names_reservation : Result Str → Bool
names_reservation (ok r) = not (is_empty r)
names_reservation (err e) = true

module _ {F : Type 0} where
  abbrev pub is_began : Str → Effect F → Bool
  is_began txn (began t) = str_eq t txn
  is_began txn _ = false

  abbrev pub is_aborted : Str → Effect F → Bool
  is_aborted txn (aborted t) = str_eq t txn
  is_aborted txn _ = false

  abbrev pub is_reserved : Str → Effect F → Bool
  is_reserved reservation (reserved o items r) = str_eq r reservation
  is_reserved reservation _ = false

  abbrev pub is_released : Str → Effect F → Bool
  is_released reservation (released r) = str_eq r reservation
  is_released reservation _ = false

  abbrev pub is_charged : Effect F → Bool
  is_charged (charged card amount o) = true
  is_charged _ = false

  -- A transaction is committed, or the outside world is told of an order.
  abbrev pub is_final : Effect F → Bool
  is_final (committed t) = true
  is_final (announced o) = true
  is_final (queued o) = true
  is_final _ = false

  -- From `old` to `new` each transaction is aborted as often as it is begun and each reservation
  -- released as often as it is made, no commit is confirmed and no message is sent.
  pub record IsUndone (old new : List (Effect F)) : Type 0 where
    pub transactions :
        (t : Str)
        → count (is_began t) new + count (is_aborted t) old
          ≡ count (is_began t) old + count (is_aborted t) new
    pub holds :
        (x : Str)
        → count (is_reserved x) new + count (is_released x) old
          ≡ count (is_reserved x) old + count (is_released x) new
    pub finals : count is_final new ≡ count is_final old

  -- The transaction is still open, and its reservation, if it has one, is still held.
  pub record IsOpen (r : Str) (old new : List (Effect F)) : Type 0 where
    transactions :
        (t : Str)
        → count (is_began t) new + count (is_aborted t) old
          ≡ count (is_began t) old + count (is_aborted t) new
    holds :
        (x : Str)
        → count (is_reserved x) new + count (is_released x) old
          ≡ count (is_reserved x) old + count (is_released x) new + one_if_held r x
    finals : count is_final new ≡ count is_final old

  abbrev pub OnFailed : (Str → List (Effect F) → Type 0) → Ending F × Shop F → Type 0
  OnFailed P (failed r e, s) = P r s.effects
  OnFailed P (placed o, s) = Unit {0}

  commit_order-IsOpen :
      (w : World) (txn : Str) (o : Order F) (old : List (Effect F)) (s : Shop F)
      → IsOpen o.reservation_id old s.effects
      → OnFailed (λ r. IsOpen r old) (commit_order w txn o s)
  unfolding commit_order
  commit_order-IsOpen w txn o old s h = elim (Option-cases w.write_error) [
    | inr (e, lost) ↦
        rw lost (record { transactions = h.transactions; holds = h.holds; finals = h.finals })
    | inl fine ↦ rw fine (elim (Option-cases w.commit_error) [
      | inr (e, lost) ↦
          rw lost (record { transactions = h.transactions; holds = h.holds; finals = h.finals })
      | inl done ↦ rw done tt
    ])
  ]

  charge_card-IsOpen :
      (w : World) (card txn : Str) (o : Order F) (old : List (Effect F)) (s : Shop F)
      → IsOpen o.reservation_id old s.effects
      → OnFailed (λ r. IsOpen r old) (charge_card w card txn o s)
  unfolding charge_card
  charge_card-IsOpen w card txn o old s h = go w.decision
    where
      go :
          (d : Decision)
          → OnFailed (λ r. IsOpen r old) (charge_card (record w { decision = d }) card txn o s)
      go (approved code) =
          commit_order-IsOpen (record w { decision = approved code }) txn
            (record o { authorization_code = code }) old
            (does (charged card o.total_price o.order_id) s)
            (record { transactions = h.transactions; holds = h.holds; finals = h.finals })
      go declined = h
      go invalid_card = h
      go (unavailable e) = record {
        transactions = h.transactions;
        holds = h.holds;
        finals = h.finals;
      }

  pub unchanged-IsUndone : (old : List (Effect F)) → IsUndone old old
  unchanged-IsUndone old = record { transactions = λ t. refl; holds = λ x. refl; finals = refl }

  pub release_claim-IsUndone :
      (w : World) (key cart_id : Str) (s : Shop F)
      → IsUndone s.effects (release_claim w key cart_id s).effects
  release_claim-IsUndone w key cart_id s = elim (Bool-cases (is_empty key)) [
    | inl keyless ↦ rw keyless (unchanged-IsUndone s.effects)
    | inr keyed ↦ rw keyed (unchanged-IsUndone s.effects)
  ]

  -- A transaction that cannot be begun leaves nothing to undo.
  pub begin_failed-IsUndone :
      (w : World) (key cart_id : Str) (s : Shop F)
      → IsUndone s.effects (release_claim w key cart_id (does begin_failed s)).effects
  begin_failed-IsUndone w key cart_id s =
      let undone : IsUndone s.effects (begin_failed ∷ s.effects) = record {
        transactions = λ t. refl;
        holds = λ x. refl;
        finals = refl;
      } in
      elim (Bool-cases (is_empty key)) [
        | inl keyless ↦ rw keyless undone
        | inr keyed ↦ rw keyed undone
      ]

  pub hold_stock-IsOpen :
      (w : World) (card txn : Str) (o : Order F) (s : Shop F)
      → names_reservation w.reservation ≡ true
      → OnFailed (λ r. IsOpen r s.effects) (hold_stock w card txn o s)
  unfolding hold_stock is_empty
  hold_stock-IsOpen w card txn o s named = go w.reservation named
    where
      go :
          (answer : Result Str)
          → names_reservation answer ≡ true
          → OnFailed
              (λ r. IsOpen r s.effects)
              (hold_stock (record w { reservation = answer }) card txn o s)
      go (err e) n = record { transactions = λ t. refl; holds = λ x. omega arith; finals = refl }
      go (ok r) n =
          charge_card-IsOpen (record w { reservation = ok r }) card txn
            (record o { reservation_id = r }) s.effects
            (does (reserved o.order_id (order_items o.items) r) s)
            (record { transactions = λ t. refl; holds = λ x. ground (arith, n); finals = refl })

  pub finish-IsUndone :
      (w : World) (key cart_id txn : Str) (old : List (Effect F)) (out : Ending F × Shop F)
      → OnFailed (λ r. IsOpen r (began txn ∷ old)) out
      → is_ok (finish w key cart_id txn out).0 ≡ false
      → IsUndone old (finish w key cart_id txn out).1.effects
  unfolding finish
  finish-IsUndone w key cart_id txn old (placed o, s) h f = cc
  finish-IsUndone w key cart_id txn old (failed r e, s) h f = record {
    transactions = λ t. ground (arith, h.transactions t);
    holds = λ x. ground (arith, h.holds x);
    finals = ground (arith, h.finals);
  }
