-- ===== src/Cca.antt =====
-- internal/cca: the simulated card authorizer and its client. A drawn number is approved below the rate;
-- of a float the code uses the comparison, which is an argument. The simulated delay is left out.
pub mod Charges
mod Tests
use quorum_market.Common.{
  ℕ, suc, Bool, true, false, not, ◌&&◌, ◌||◌, Option, none, some, List, [], ◌∷◌, leb, ◌==◌,
  if◌then◌else◌, Str, bytes, is_empty,
}
use quorum_market.Httpx.Errors.{Error, errorf, Result, ok, err, is_status}
use quorum_market.Cart.Checkout.{Decision, approved, declined, invalid_card, unavailable}

unfoldable pub is_digit : ℕ → Bool
is_digit c = leb b'0' c && leb c b'9'

-- The loop of `ValidCardNumber`: how many digits there are, `none` where a byte is not allowed.
card_digits : Str → Option ℕ
unfolding is_digit
card_digits [] = some 0
card_digits (c ∷ s) =
    let rest = card_digits s in
    if is_digit c
    then elim rest [ none ↦ none | some n ↦ some (suc n) ]
    else if c == b'-' || c == b' '
    then rest
    else none

-- `ValidCardNumber`, where `trim` is strings.TrimSpace
unfoldable pub valid_card_number : (Str → Str) → Str → Bool
unfolding card_digits
valid_card_number trim s = elim (card_digits s) [
  | none ↦ false
  | some n ↦ n == 16 && not (is_empty (trim s))
]

pub record AuthorizeRequest (F : Type 0) : Type 0 where
  pub card_number : Str
  pub amount : F
  pub order_id : Str

pub record AuthorizeResponse (F : Type 0) : Type 0 where
  pub authorized : Bool
  pub code : Str
  pub amount : F

-- A status with its body; the reason is left out.
pub record Response (F : Type 0) : Type 0 where
  pub status : ℕ
  pub body : AuthorizeResponse F

module _ {F : Type 0} (zero_float : F) (trim : Str → Str) where
  abbrev refused : AuthorizeResponse F
  refused = record { authorized = false; code = []; amount = zero_float }

  -- `handleAuthorize`, once the body has been decoded. `is_refused` tells whether the number drawn reaches
  -- the approval rate, and `code` is the code at the time.
  unfoldable pub handle_authorize : Bool → Str → AuthorizeRequest F → Response F
  handle_authorize is_refused code req =
      if not (valid_card_number trim req.card_number)
      then record { status = 400; body = refused }
      else if is_refused
      then record { status = 402; body = refused }
      else record {
        status = 200;
        body = record { authorized = true; code = code; amount = req.amount };
      }

-- The answer of the HTTP client: the body of a 2xx, or an error with the status.
unfoldable pub received : {F : Type 0} → Response F → Result (AuthorizeResponse F)
received r = if leb 200 r.status && leb r.status 299 then ok r.body else err (errorf r.status)

-- `Authorize`, of that answer
unfoldable pub authorize : {F : Type 0} → Result (AuthorizeResponse F) → Decision
authorize (ok r) = approved r.code
authorize (err e) =
    if is_status e 402 then declined else if is_status e 400 then invalid_card else unavailable e
