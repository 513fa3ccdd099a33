-- ===== src/Kv/Server.antt =====
-- internal/kv/server.go: the handlers of a node. A body is what JSON decodes, or its error; the stats,
-- the simulated delay of the transactions and the routing are left out.
use quorum_market.Common.{
  ℕ, ◌-◌, ◌*◌, ◌%◌, ◌^◌, Option, none, some, List, [], ℤ, pos, negsuc, pos_part, ltb, ltb_ℤ, leb_ℤ,
  if◌then◌else◌, Str, is_empty,
}
use quorum_market.Httpx.Errors.{Error, errorf, Result, ok, err}
use quorum_market.Kv.Entry.{Entry}
use quorum_market.Kv.Config.{Config}
use quorum_market.Kv.Store
use quorum_market.Kv.Store.{Store, get}
use quorum_market.Kv.Service.{Push, Reply, write, read, apply_replication}
use quorum_market.Kv.Service.Scans.{scan_quorum}
use quorum_market.Kv.Txn.{Txn, TxnManager, begin, commit, abort}

pub record WriteRequest : Type 0 where
  pub key : Str
  pub value : Str
  pub ttl_ms : ℤ  -- int64

pub record WriteResponse : Type 0 where
  pub key : Str
  pub version : ℤ
  pub origin : Str
  pub expires_at : ℤ

-- `time.Duration(ms) * time.Millisecond` for `ms` from zero up, which keeps the low 64 bits
unfoldable pub milliseconds : ℤ → ℤ
milliseconds ms =
    let n = (pos_part ms * 1_000_000) % 2 ^ 64 in
    if ltb n (2 ^ 63) then pos n else negsuc (2 ^ 64 - 1 - n)

response_of : Result Entry → Result WriteResponse
response_of (err e) = err e
response_of (ok e) =
    ok (record { key = e.key; version = e.version; origin = e.origin; expires_at = e.expires_at })

-- `handleWrite`: the answer, the store, and the peers that the entry is sent to
unfoldable pub handle_write :
    Config
    → ℕ
    → Option Error
    → List Push
    → Result WriteRequest
    → Store
    → Result WriteResponse × Store × List Str
unfolding response_of milliseconds
handle_write cfg now cancel pushes (err e) s = (err e, s, [])
handle_write cfg now cancel pushes (ok req) s =
    if ltb_ℤ req.ttl_ms (pos 0)
    then (err (errorf 400), s, [])
    else let w = write cfg now cancel pushes req.key req.value (milliseconds req.ttl_ms) s in
      (response_of w.result, w.store, w.sent)

-- The answer with an entry, or that there is none.
unfoldable pub entry_or_404 : Result (Option Entry) → Result Entry
entry_or_404 (err e) = err e
entry_or_404 (ok none) = err (errorf 404)
entry_or_404 (ok (some e)) = ok e

-- `handleRead`: the answer, the store, and the peers that are repaired
unfoldable pub handle_read :
    Config → ℕ → Option Error → List Reply → Str → Store → Result Entry × Store × List Str
unfolding entry_or_404
handle_read cfg now cancel replies key s =
    let r = read cfg now cancel replies key s in (entry_or_404 r.result, r.store, r.repaired)

-- `handleLocalRead` and `handleInternalRead`
unfoldable pub handle_local_read : ℕ → Str → Store → Result Entry
unfolding entry_or_404
handle_local_read now key s = entry_or_404 (ok (get now key s))

-- `handleReplicate`: the store, and the error
unfoldable pub handle_replicate :
    Config → Option Error → Result Entry → Store → Store × Option Error
handle_replicate cfg cancel (err e) s = (s, some e)
handle_replicate cfg cancel (ok e) s = apply_replication cfg cancel e s

-- `scanLimit` of what strconv.Atoi makes of the query, `none` for an error
unfoldable pub scan_limit : Option ℤ → ℤ
scan_limit none = pos 200
scan_limit (some n) =
    if leb_ℤ n (pos 0) then pos 200 else if ltb_ℤ (pos 1000) n then pos 1000 else n

-- `handleScan` over the answers of the peers
unfoldable pub handle_scan :
    Config
    → ℕ
    → Option Error
    → List (Result (List Entry))
    → Str
    → Option ℤ
    → Store
    → Result (List Entry)
unfolding scan_limit
handle_scan cfg now cancel answers prefix limit s =
    let n = scan_limit limit in
    if is_empty prefix
    then err (errorf 400)
    else scan_quorum cfg cancel (Store.scan now s.entries prefix n) answers n

-- `handleInternalScan`
unfoldable pub handle_internal_scan : ℕ → Str → Option ℤ → Store → Result (List Entry)
unfolding scan_limit
handle_internal_scan now prefix limit s =
    if is_empty prefix
    then err (errorf 400)
    else ok (Store.scan now s.entries prefix (scan_limit limit))

-- `handleBegin`, `handleEnd` and `handleAbort`
unfoldable pub handle_begin : Str → ℕ → TxnManager → Result Txn × TxnManager
handle_begin id now m = let (m', t) = begin id now m in (ok t, m')

resolve_txn :
    (Str → TxnManager → TxnManager × Result Txn) → Result Str → TxnManager → Result Txn × TxnManager
resolve_txn resolve (err e) m = (err e, m)
resolve_txn resolve (ok id) m = let (m', r) = resolve id m in (r, m')

unfoldable pub handle_end : Result Str → TxnManager → Result Txn × TxnManager
unfolding resolve_txn
handle_end = resolve_txn commit

unfoldable pub handle_abort : Result Str → TxnManager → Result Txn × TxnManager
unfolding resolve_txn
handle_abort = resolve_txn abort
