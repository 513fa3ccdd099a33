-- ===== src/Cart/Idempotency/Claims.antt =====
-- Claims on a key of internal/cart/idempotency.go, one after another.
use quorum_market.Common.{
  ℕ, ◌+◌, ◌-◌, ◌*◌, ◌<◌, ◌≤◌, ◌≡◌, none, some, arith, if◌then◌else◌, Str, str_eq, str_eq_refl,
  Assoc, lookup-insert,
}
use quorum_market.Httpx.Errors.{errorf, ok, err}
use quorum_market.Kv.Entry.{unix_milli}
use quorum_market.Cart.Idempotency.{
  completed, Stored, Faults, fresh_claim, claim_key, claim, complete, release, completed_ttl,
  in_progress_ttl,
}

-- No call of the database fails.
abbrev pub no_faults : Faults
no_faults = record { get_error = none; put_error = none }

module _ {R : Type 0} where
  -- A checkout that has been completed is replayed with its receipt, and to no other cart, until its
  -- record expires; and the claim changes nothing.
  pub complete_replays :
      (now t : ℕ) (key cart_id other : Str) (receipt : R) (db : Assoc (Stored R))
      → unix_milli t < unix_milli (now + completed_ttl)
      → let db' = complete now no_faults key cart_id receipt db in
        claim t no_faults key other db'
        ≡ (if str_eq cart_id other then (ok (some receipt), db') else (err (errorf 409), db'))
  unfolding complete claim
  complete_replays now t key cart_id other receipt db fresh = ground (
    arith,
    lookup-insert (claim_key key) (claim_key key)
        (record {
          claim = record (fresh_claim now key cart_id) {
            state = completed;
            receipt = some receipt;
          };
          expires_at = unix_milli (now + completed_ttl);
        })
        db,
    str_eq_refl (claim_key key),
  )

  -- A key that has been claimed is refused with 409 to every further claim, from the same cart or
  -- another, for as long as the claim lasts, in milliseconds; and that changes nothing.
  pub claim_excludes :
      (now t : ℕ) (key cart_id other : Str) (db : Assoc (Stored R))
      → (claim now no_faults key cart_id db).0 ≡ ok none
      → unix_milli t < unix_milli (now + in_progress_ttl)
      → let db' = (claim now no_faults key cart_id db).1 in
        claim t no_faults key other db' ≡ (err (errorf 409), db')
  unfolding claim
  claim_excludes now t key cart_id other db got fresh = ground (
    arith,
    lookup-insert (claim_key key) (claim_key key)
        (record {
          claim = fresh_claim now key cart_id;
          expires_at = unix_milli (now + in_progress_ttl);
        })
        db,
    str_eq_refl (claim_key key),
  )

  -- A key that has been released can be claimed again by the same cart, at once.
  pub release_frees :
      (now t : ℕ) (key cart_id : Str) (db : Assoc (Stored R))
      → 2 * in_progress_ttl ≤ now
      → now ≤ t
      → (claim t no_faults key cart_id (release now no_faults key cart_id db)).0 ≡ ok none
  unfolding release claim
  release_frees now t key cart_id db late after = ground (
    arith,
    lookup-insert (claim_key key) (claim_key key)
        (record {
          claim = record (fresh_claim now key cart_id) { started_at = now - 2 * in_progress_ttl };
          expires_at = unix_milli (now + in_progress_ttl);
        })
        db,
    str_eq_refl (claim_key key),
    str_eq_refl cart_id,
  )
