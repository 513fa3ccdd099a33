-- ===== src/Cart/Idempotency.antt =====
-- internal/cart/idempotency.go: the claims on idempotency keys. The database is a map whose records
-- expire as the store's entries do, in milliseconds; a record is read back as it was written.
-- `Faults` says which calls of the database fail. A receipt is a type that the code only copies.
-- Times are nanoseconds, and the clock is more than two minutes past the epoch.
pub mod Claims
use quorum_market.Common.{
  ℕ, ◌+◌, ◌-◌, ◌*◌, Bool, true, false, not, Option, none, some, ◌++◌, ◌∷◌, [], ◌==◌, ◌||◌, ◌&&◌,
  length, leb, ltb, if◌then◌else◌, Str, bytes, str_eq, Assoc, lookup, insert,
}
use quorum_market.Httpx.Errors.{Error, errorf, wrap, Result, ok, err}
use quorum_market.Kv.Entry.{unix_milli}

abbrev pub completed_ttl : ℕ
completed_ttl = 86400000000000

abbrev pub in_progress_ttl : ℕ
in_progress_ttl = 60000000000

pub data ClaimState : Type 0 where
  in_progress completed : ClaimState

-- `idempotencyRecord`
pub record Claim (R : Type 0) : Type 0 where
  pub key : Str
  pub cart_id : Str
  pub state : ClaimState
  pub receipt : Option R
  pub started_at : ℕ

-- A record in the database, with the millisecond in which it expires.
pub record Stored (R : Type 0) : Type 0 where
  pub claim : Claim R
  pub expires_at : ℕ

pub record Faults : Type 0 where
  pub get_error : Option Error
  pub put_error : Option Error

unfoldable pub claim_key : Str → Str
claim_key key = bytes "idem:" ++ key

module _ {R : Type 0} where
  abbrev pub current : ℕ → Option (Stored R) → Option (Claim R)
  current now none = none
  current now (some s) = if leb s.expires_at (unix_milli now) then none else some s.claim

  unfoldable pub load : ℕ → Faults → Str → Assoc (Stored R) → Result (Option (Claim R))
  load now faults key db = elim faults.get_error [
    | some e ↦ err (wrap 503 e)
    | none ↦ ok (current now (lookup (claim_key key) db))
  ]

  -- The error of `save`, and the database after it.
  unfoldable pub save :
      ℕ → Faults → Claim R → ℕ → Assoc (Stored R) → Option Error × Assoc (Stored R)
  save now faults c ttl db = elim faults.put_error [
    | some e ↦ (some (wrap 503 e), db)
    | none ↦ (
      none,
      insert (claim_key c.key) (record { claim = c; expires_at = unix_milli (now + ttl) }) db,
    )
  ]

  -- `existing.Receipt`, where the state is completed
  abbrev pub finished : ClaimState → Option R → Option R
  finished completed receipt = receipt
  finished in_progress receipt = none

  claim_saved : Option Error × Assoc (Stored R) → Result (Option R) × Assoc (Stored R)
  claim_saved (some e, db) = (err e, db)
  claim_saved (none, db) = (ok none, db)

  abbrev pub fresh_claim : ℕ → Str → Str → Claim R
  fresh_claim now key cart_id = record {
    key = key;
    cart_id = cart_id;
    state = in_progress;
    receipt = none;
    started_at = now;
  }

  -- The end of `claim`, which takes the key over.
  take_over : ℕ → Faults → Str → Str → Assoc (Stored R) → Result (Option R) × Assoc (Stored R)
  unfolding save claim_saved
  take_over now faults key cart_id db =
      claim_saved (save now faults (fresh_claim now key cart_id) in_progress_ttl db)

  claim_existing :
      ℕ → Faults → Str → Str → Assoc (Stored R) → Claim R → Result (Option R) × Assoc (Stored R)
  unfolding take_over
  claim_existing now faults key cart_id db c =
      if not (str_eq c.cart_id cart_id)
      then (err (errorf 409), db)
      else elim (finished c.state c.receipt) [
        | some receipt ↦ (ok (some receipt), db)
        | none ↦
            if ltb now (c.started_at + in_progress_ttl)
            then (err (errorf 409), db)
            else take_over now faults key cart_id db
      ]

  -- `claim`: the receipt to replay, if any.
  unfoldable pub claim :
      ℕ → Faults → Str → Str → Assoc (Stored R) → Result (Option R) × Assoc (Stored R)
  unfolding load claim_existing take_over
  claim now faults key cart_id db = elim (load now faults key db) [
    | err e ↦ (err e, db)
    | ok none ↦ take_over now faults key cart_id db
    | ok (some c) ↦ claim_existing now faults key cart_id db c
  ]

  -- `complete`, whose error is only logged.
  unfoldable pub complete : ℕ → Faults → Str → Str → R → Assoc (Stored R) → Assoc (Stored R)
  unfolding save
  complete now faults key cart_id receipt db =
      let c = record (fresh_claim now key cart_id) { state = completed; receipt = some receipt } in
      (save now faults c completed_ttl db).1

  -- `release`, which backdates the claim.
  unfoldable pub release : ℕ → Faults → Str → Str → Assoc (Stored R) → Assoc (Stored R)
  unfolding save
  release now faults key cart_id db =
      let c = record (fresh_claim now key cart_id) { started_at = now - 2 * in_progress_ttl } in
      (save now faults c in_progress_ttl db).1

-- A character that a key may hold.
unfoldable pub is_key_char : ℕ → Bool
is_key_char c =
    (leb b'a' c && leb c b'z')
    || ((leb b'A' c && leb c b'Z')
        || ((leb b'0' c && leb c b'9') || (c == b'-' || (c == b'_' || (c == b':' || c == b'.')))))

unfoldable pub all_key_chars : Str → Bool
unfolding is_key_char
all_key_chars [] = true
all_key_chars (c ∷ s) = is_key_char c && all_key_chars s

-- `validateIdempotencyKey`
unfoldable pub validate_key : Str → Option Error
unfolding all_key_chars
validate_key key =
    if ltb 128 (length key)
    then some (errorf 400)
    else if all_key_chars key
    then none
    else some (errorf 400)
