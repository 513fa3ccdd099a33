-- ===== src/Cca/Tests.antt =====
-- internal/cca on concrete inputs.
use quorum_market.Common.{
  ℕ, ◌≡◌, ◌<◌, refl, true, false, not, [], ◌∷◌, Str, bytes, is_empty, count, if◌then◌else◌, arith,
}
use quorum_market.Cart.Checkout.{approved, declined, invalid_card}
use quorum_market.Cca.{
  is_digit, card_digits, valid_card_number, AuthorizeRequest, handle_authorize, received, authorize,
}
use quorum_market.Cca.Charges.{is_card, charge_is_classified}

abbrev grouped : Str
grouped = bytes "4111-1111 1111-1111"

abbrev request : AuthorizeRequest ℕ
request = record { card_number = grouped; amount = 300; order_id = bytes "o" }

approved_charge :
    authorize (received (handle_authorize 0 (λ s. s) false (bytes "AUTH-1") request))
    ≡ approved (bytes "AUTH-1")
unfolding authorize received handle_authorize valid_card_number card_digits is_digit is_empty
approved_charge = refl

-- Trimming that leaves everything.
keeps_all : (s : Str) → 0 < count is_digit s → is_empty s ≡ false
unfolding is_digit is_empty
keeps_all [] h = absurd (omega (arith, h))
keeps_all (c ∷ s) h = refl

charge_is_classified_example :
    authorize (received (handle_authorize 0 (λ s. s) true (bytes "AUTH-1") request)) ≡ (
      if not (is_card grouped)
      then invalid_card
      else if true
      then declined
      else approved (bytes "AUTH-1"))
charge_is_classified_example =
    charge_is_classified (λ s. s) keeps_all 0 true (bytes "AUTH-1") request
