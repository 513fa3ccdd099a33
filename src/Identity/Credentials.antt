-- ===== src/Identity/Credentials.antt =====
-- What internal/identity/identity.go accepts as an email address and as a password.
use quorum_market.Common.{
  ℕ, suc, Bool, true, false, ◌||◌, Option, none, some, [], ◌∷◌, ltb, ◌==◌, if◌then◌else◌, length,
  Str, is_empty,
}
use quorum_market.Httpx.Errors.{Error, errorf, Result, ok, err}

-- `strings.IndexByte(s, b)`; `none` is -1
unfoldable pub index_byte : ℕ → Str → Option ℕ
index_byte b [] = none
index_byte b (c ∷ s) =
    let rest = index_byte b s in
    if c == b then some 0 else elim rest [ none ↦ none | some i ↦ some (suc i) ]

unfoldable pub contains_byte : ℕ → Str → Bool
contains_byte b [] = false
contains_byte b (c ∷ s) = c == b || contains_byte b s

-- `at < 1 || at == len(email)-1`
abbrev at_an_end : ℕ → Option ℕ → Bool
at_an_end n none = true
at_an_end n (some i) = ltb i 1 || suc i == n

-- `normalizeEmail`, of an address in lower case without spaces around it
unfoldable pub check_email : Str → Result Str
unfolding index_byte contains_byte
check_email email =
    if is_empty email
    then err (errorf 400)
    else if ltb 254 (length email)
    then err (errorf 400)
    else if at_an_end (length email) (index_byte b'@' email) || contains_byte b' ' email
    then err (errorf 400)
    else ok email

unfoldable pub normalize_email : (Str → Str) → Str → Result Str
unfolding check_email
normalize_email fold_case email = check_email (fold_case email)

unfoldable pub validate_password : Str → Option Error
validate_password password =
    if ltb (length password) 10
    then some (errorf 400)
    else if ltb 1024 (length password)
    then some (errorf 400)
    else none
