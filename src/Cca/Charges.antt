-- ===== src/Cca/Charges.antt =====
-- How a charge of internal/cca is classified.
use quorum_market.Common.{
  ℕ, ◌≡◌, ◌<◌, refl, Bool, true, false, not, ◌&&◌, ◌||◌, Option, none, some, [], ◌∷◌, ◌==◌,
  if◌then◌else◌, length, count, Str, is_empty, arith, Bool-cases, inl, inr,
}
use quorum_market.Httpx.Errors.{is_status}
use quorum_market.Cart.Checkout.{approved, declined, invalid_card}
use quorum_market.Cca.{
  is_digit, card_digits, valid_card_number, AuthorizeRequest, handle_authorize, received, authorize,
}

-- A card number without the spaces and dashes between its groups.
abbrev pub compact : Str → Str
compact [] = []
compact (c ∷ s) = let rest = compact s in if c == b'-' || c == b' ' then rest else c ∷ rest

abbrev pub all_digits : Str → Bool
all_digits [] = true
all_digits (c ∷ s) = is_digit c && all_digits s

-- The digits of a number that has nothing else.
abbrev digits_of : Str → Option ℕ
digits_of s = if all_digits s then some (length s) else none

card_digits-compact : (s : Str) → card_digits s ≡ digits_of (compact s)
unfolding card_digits is_digit
card_digits-compact [] = refl
card_digits-compact (c ∷ s) = ground (arith, card_digits-compact s)

count-compact : (s : Str) → all_digits (compact s) ≡ true → count is_digit s ≡ length (compact s)
unfolding is_digit
count-compact [] h = refl
count-compact (c ∷ s) h = ground (arith, count-compact s, h)

-- A card number is sixteen digits once its spaces and dashes are left out.
abbrev pub is_card : Str → Bool
is_card s = all_digits (compact s) && length (compact s) == 16

module _ (trim : Str → Str)
    (keeps : (s : Str) → 0 < count is_digit s → is_empty (trim s) ≡ false) where
  -- A card number is valid just if it is sixteen digits once the spaces and dashes are left out. Trimming
  -- leaves something of a text that has a digit.
  pub valid_card_number_exact : (s : Str) → valid_card_number trim s ≡ is_card s
  unfolding valid_card_number
  valid_card_number_exact s = elim (Bool-cases (all_digits (compact s))) [
    | inr other ↦ ground (arith, card_digits-compact s, other)
    | inl digits ↦ elim (Bool-cases (length (compact s) == 16)) [
      | inr long ↦ ground (arith, card_digits-compact s, digits, long)
      | inl sixteen ↦
          let some_digit : 0 < count is_digit s = ground (arith, count-compact s digits, sixteen) in
          ground (arith, card_digits-compact s, digits, sixteen, keeps s some_digit)
    ]
  ]

  -- What a checkout learns of a charge is what the authorizer decided: a number that is not sixteen
  -- digits is an invalid card, a card that is refused is declined, and an approved one comes with the
  -- authorization code. Trimming leaves something of a text that has a digit.
  pub charge_is_classified :
      {F : Type 0} (zero_float : F) (is_refused : Bool) (code : Str) (req : AuthorizeRequest F)
      → authorize (received (handle_authorize zero_float trim is_refused code req)) ≡ (
          if not (is_card req.card_number)
          then invalid_card
          else if is_refused
          then declined
          else approved code)
  unfolding authorize received handle_authorize is_status
  charge_is_classified zero_float is_refused code req =
      let same = valid_card_number_exact req.card_number in
      elim (Bool-cases (is_card req.card_number)) [
        | inr bad ↦ rw (same, bad) refl
        | inl good ↦ elim (Bool-cases is_refused) [
          | inl no_charge ↦ rw (same, good, no_charge) refl
          | inr charge ↦ rw (same, good, charge) refl
        ]
      ]
