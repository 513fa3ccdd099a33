-- ===== src/Httpx/Errors.antt =====
-- internal/httpx/errors.go: errors that carry an HTTP status. Their texts are left out.
use quorum_market.Common.{ℕ, Bool, true, false, Option, none, some, ◌==◌, ◌≡◌, refl, ◌⊎◌, inl, inr}

-- A Go `error`: an `*APIError` with no cause, one that retains a cause, or any other error.
pub data Error : Type 0 where
  errorf : ℕ → Error
  wrap : ℕ → Error → Error
  plain : Error

-- `StatusOf`; `none` is the nil error.
unfoldable pub status_of : Option Error → ℕ
status_of none = 200
status_of (some (errorf s)) = s
status_of (some (wrap s e)) = s
status_of (some plain) = 500

unfoldable pub is_status : Error → ℕ → Bool
is_status (errorf s) n = s == n
is_status (wrap s e) n = s == n
is_status plain n = false

-- What a Go function with results `(A, error)` returns.
pub data Result {ℓ} (A : Type ℓ) : Type ℓ where
  ok : A → Result A
  err : Error → Result A

abbrev pub is_ok {ℓ} : {A : Type ℓ} → Result A → Bool
is_ok (ok a) = true
is_ok (err e) = false

pub Result-cases {ℓ} :
    {A : Type ℓ} (r : Result A) → ((a : A) × (r ≡ ok a)) ⊎ ((e : Error) × (r ≡ err e))
Result-cases (ok a) = inl (a, refl)
Result-cases (err e) = inr (e, refl)
