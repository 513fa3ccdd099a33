-- ===== src/Kv/Client.antt =====
-- internal/kv/client.go: a service's calls of a cluster. An answer is that of the HTTP client: what the
-- node sends, or an error, which carries the status of the response where there is one.
pub mod Absence
use quorum_market.Common.{
  ℕ, ◌/◌, Bool, Option, none, some, List, ℤ, pos, pos_part, ltb_ℤ, if◌then◌else◌, Str, is_empty,
}
use quorum_market.Httpx.Errors.{Error, errorf, Result, ok, err, is_status, status_of}
use quorum_market.Kv.Entry.{Entry}
use quorum_market.Kv.Server.{WriteRequest, WriteResponse}

-- A response of internal/httpx/respond.go as the client of internal/httpx/client.go reads it: `WriteError`
-- sends the status of the error, and every status but 2xx is an error with that status.
unfoldable pub over_http : {A : Type 0} → Result A → Result A
over_http (ok a) = ok a
over_http (err e) = err (errorf (status_of (some e)))

-- `Get`; `none` is a key that is not found.
unfoldable pub get_entry : Result Entry → Result (Option Entry)
get_entry (ok e) = ok (some e)
get_entry (err e) = if is_status e 404 then ok none else err e

-- The request of `PutWithTTL`, for a lifetime in nanoseconds
unfoldable pub put_request : Str → Str → ℤ → WriteRequest
put_request key value ttl = record {
  key = key;
  value = value;
  ttl_ms = if ltb_ℤ (pos 0) ttl then pos (pos_part ttl / 1_000_000) else pos 0;
}

-- `PutWithTTL`
unfoldable pub put_version : Result WriteResponse → Result ℤ
put_version (ok r) = ok r.version
put_version (err e) = err e

-- `BeginTxn`, of the id in the answer
unfoldable pub begin_txn : Result Str → Result Str
begin_txn (ok id) = if is_empty id then err (errorf 502) else ok id
begin_txn (err e) = err e
