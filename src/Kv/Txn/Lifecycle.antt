-- ===== src/Kv/Txn/Lifecycle.antt =====
-- The uses of a transaction manager of internal/kv/txn.go.
use quorum_market.Common.{
  ℕ, suc, ◌+◌, ltb, ◌≡◌, refl, inl, inr, not, none, some, arith, ℤ, Bool-cases, Option-cases, [],
  ◌∷◌, Str, is_empty, str_eq_refl, length, Assoc, lookup, lookup-delete, IsDistinct,
  insert-IsDistinct, delete-IsDistinct, length-insert_new, length-delete, keep, keep-IsDistinct,
}
use quorum_market.Httpx.Errors.{errorf, ok, err}
use quorum_market.Kv.Txn.{
  Txn, TxnManager, TxnState, committed, u64, new_txn_manager, begin, resolve, resolve_found,
  open_count, is_stale, reap, sweep,
}

-- Once a transaction is committed or aborted, resolving it again, either way, answers 404 and
-- changes nothing.
pub resolve_once :
    (id : Str) (s t : TxnState) (m : TxnManager) {txn : Txn}
    → (resolve id s m).1 ≡ ok txn
    → resolve id t (resolve id s m).0 ≡ ((resolve id s m).0, err (errorf 404))
unfolding resolve
resolve_once id s t m h = ground (arith, lookup-delete id id m.txns, str_eq_refl id)

reap-eq-keep :
    (now ttl : ℕ) (m : Assoc Txn) → (reap now ttl m).0 ≡ keep (λ t. not (is_stale now ttl t)) m
unfolding reap keep
reap-eq-keep now ttl [] = refl
reap-eq-keep now ttl ((id, t) ∷ m) = ground (arith, reap-eq-keep now ttl m)

reap_counts :
    (now ttl : ℕ) (m : Assoc Txn) → length (reap now ttl m).0 + (reap now ttl m).1 ≡ length m
unfolding reap
reap_counts now ttl [] = refl
reap_counts now ttl ((id, t) ∷ m) = ground (arith, reap_counts now ttl m)

reap-IsDistinct : (now ttl : ℕ) (m : Assoc Txn) → IsDistinct m → IsDistinct (reap now ttl m).0
reap-IsDistinct now ttl m d =
    rw (reap-eq-keep now ttl m) (keep-IsDistinct (λ t. not (is_stale now ttl t)) m d)

-- A manager in use, with the number of transactions begun so far. The ids that `newTxnID` draws are
-- taken not to collide with an open transaction's.
pub data Run : ℕ → TxnManager → Type 0 where
  start : (ttl : ℤ) → Run 0 (new_txn_manager ttl)
  begun :
      {n : ℕ} {m : TxnManager}
      → Run n m
      → (id : Str) (now : ℕ) → lookup id m.txns ≡ none
      → Run (suc n) (begin id now m).0
  resolved :
      {n : ℕ} {m : TxnManager} → Run n m → (id : Str) (s : TxnState) → Run n (resolve id s m).0
  swept : {n : ℕ} {m : TxnManager} → Run n m → (now : ℕ) → Run n (sweep now m).0

pub record Accounts (n : ℕ) (m : TxnManager) : Type 0 where
  pub distinct : IsDistinct m.txns
  pub balance : u64 (open_count m + m.committed_count + m.aborted_count + m.abandoned_count) ≡ u64 n

begin-Accounts :
    (n : ℕ) (m : TxnManager) (id : Str) (now : ℕ)
    → lookup id m.txns ≡ none
    → Accounts n m
    → Accounts (suc n) (begin id now m).0
unfolding begin open_count
begin-Accounts n m id now fresh a = record {
  distinct = insert-IsDistinct id (begin id now m).1 m.txns a.distinct;
  balance = omega (arith, a.balance, length-insert_new id (begin id now m).1 m.txns fresh);
}

closed-Accounts :
    (n : ℕ) (m : TxnManager) (id : Str) (t : Txn) (s : TxnState)
    → lookup id m.txns ≡ some t
    → Accounts n m
    → Accounts n (resolve_found id s m (some t)).0
unfolding resolve_found open_count
closed-Accounts n m id t committed found a = record {
  distinct = delete-IsDistinct id m.txns a.distinct;
  balance = omega (arith, a.balance, length-delete id t m.txns a.distinct found);
}
closed-Accounts n m id t _ found a = record {
  distinct = delete-IsDistinct id m.txns a.distinct;
  balance = omega (arith, a.balance, length-delete id t m.txns a.distinct found);
}

resolve-Accounts :
    (n : ℕ) (m : TxnManager) (id : Str) (s : TxnState)
    → Accounts n m
    → Accounts n (resolve id s m).0
unfolding resolve
resolve-Accounts n m id s a = elim (Bool-cases (is_empty id)) [
  | inl none_given ↦ rw none_given a
  | inr given ↦ rw given (elim (Option-cases (lookup id m.txns)) [
    | inl absent ↦ rw absent a
    | inr (t, found) ↦ rw found (closed-Accounts n m id t s found a)
  ])
]

sweep-Accounts : (n : ℕ) (m : TxnManager) (now : ℕ) → Accounts n m → Accounts n (sweep now m).0
unfolding sweep open_count
sweep-Accounts n m now a = elim (Bool-cases (ltb 0 (reap now m.ttl m.txns).1)) [
  | inl some_reaped ↦ rw some_reaped (record {
    distinct = reap-IsDistinct now m.ttl m.txns a.distinct;
    balance = omega (arith, a.balance, reap_counts now m.ttl m.txns);
  })
  | inr none_reaped ↦ rw none_reaped (record {
    distinct = reap-IsDistinct now m.ttl m.txns a.distinct;
    balance = ground (arith, a.balance, reap_counts now m.ttl m.txns);
  })
]

-- However a manager has been used, every transaction begun is open, committed, aborted or reaped as
-- abandoned, and in one of these only: the four counts add up to the number begun, modulo 2 ^ 64.
pub Run-Accounts : {n : ℕ} {m : TxnManager} → Run n m → Accounts n m
unfolding new_txn_manager open_count
Run-Accounts (start ttl) = record { distinct = tt; balance = refl }
Run-Accounts (begun {n} {m} r id now fresh) = begin-Accounts n m id now fresh (Run-Accounts r)
Run-Accounts (resolved {n} {m} r id s) = resolve-Accounts n m id s (Run-Accounts r)
Run-Accounts (swept {n} {m} r now) = sweep-Accounts n m now (Run-Accounts r)
