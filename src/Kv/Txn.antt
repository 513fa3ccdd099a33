-- ===== src/Kv/Txn.antt =====
-- internal/kv/txn.go: the lifecycle of the simulated transactions. `Begin` takes the id that
-- `newTxnID` draws at random, and the time.
pub mod Lifecycle
mod Tests
use quorum_market.Common.{
  ℕ, suc, ◌+◌, ◌%◌, ◌^◌, Bool, true, false, Option, none, some, List, [], ◌∷◌, ℤ, pos, pos_part,
  ltb_ℤ, ltb, if◌then◌else◌, length, Str, is_empty, str_eq, Assoc, lookup, insert, delete,
}
use quorum_market.Httpx.Errors.{Error, errorf, Result, ok, err}

pub data TxnState : Type 0 where
  pending committed aborted : TxnState

pub record Txn : Type 0 where
  pub id : Str
  pub state : TxnState
  pub started_at : ℕ

pub record TxnManager : Type 0 where
  pub txns : Assoc Txn
  pub ttl : ℕ
  pub committed_count : ℕ  -- uint64
  pub aborted_count : ℕ  -- uint64
  pub abandoned_count : ℕ  -- uint64

abbrev pub u64 : ℕ → ℕ
u64 n = n % 2 ^ 64

unfoldable pub new_txn_manager : ℤ → TxnManager
new_txn_manager ttl = record {
  txns = [];
  ttl = if ltb_ℤ (pos 0) ttl then pos_part ttl else 300000000000;
  committed_count = 0;
  aborted_count = 0;
  abandoned_count = 0;
}

unfoldable pub begin : Str → ℕ → TxnManager → TxnManager × Txn
begin id now m =
    let t : Txn = record { id = id; state = pending; started_at = now } in
    (record m { txns = insert id t m.txns }, t)

abbrev is_committed : TxnState → Bool
is_committed committed = true
is_committed _ = false

resolve_found : Str → TxnState → TxnManager → Option Txn → TxnManager × Result Txn
resolve_found id state m none = (m, err (errorf 404))
resolve_found id state m (some t) =
    let m' = record m { txns = delete id m.txns } in
    (
      if is_committed state
          then record m' { committed_count = u64 (m.committed_count + 1) }
          else record m' { aborted_count = u64 (m.aborted_count + 1) },
      ok (record t { state = state }),
    )

unfoldable pub resolve : Str → TxnState → TxnManager → TxnManager × Result Txn
unfolding resolve_found
resolve id state m =
    if is_empty id then (m, err (errorf 400)) else resolve_found id state m (lookup id m.txns)

unfoldable pub commit : Str → TxnManager → TxnManager × Result Txn
unfolding resolve
commit id = resolve id committed

unfoldable pub abort : Str → TxnManager → TxnManager × Result Txn
unfolding resolve
abort id = resolve id aborted

unfoldable pub open_count : TxnManager → ℕ
open_count m = length m.txns

-- `t.StartedAt.Before(now.Add(-ttl))`
abbrev pub is_stale : ℕ → ℕ → Txn → Bool
is_stale now ttl t = ltb (t.started_at + ttl) now

-- The loop of `Sweep`: the transactions that it leaves, and how many it reaps.
unfoldable pub reap : ℕ → ℕ → Assoc Txn → Assoc Txn × ℕ
reap now ttl [] = ([], 0)
reap now ttl ((id, t) ∷ m) =
    let (rest, reaped) = reap now ttl m in
    if is_stale now ttl t then (rest, suc reaped) else ((id, t) ∷ rest, reaped)

unfoldable pub sweep : ℕ → TxnManager → TxnManager × ℕ
unfolding reap
sweep now m =
    let (rest, reaped) = reap now m.ttl m.txns in
    let m' = record m { txns = rest } in
    (
      if ltb 0 reaped then record m' { abandoned_count = u64 (m.abandoned_count + reaped) } else m',
      reaped,
    )
