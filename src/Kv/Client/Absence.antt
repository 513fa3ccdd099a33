-- ===== src/Kv/Client/Absence.antt =====
-- What a `Get` of internal/kv/client.go tells of a quorum read of internal/kv/service.go.
use quorum_market.Common.{ℕ, ◌≡◌, refl, inl, inr, Option, none, some, List, Str}
use quorum_market.Httpx.Errors.{Error, Result, ok, err, is_status, status_of}
use quorum_market.Kv.Entry.{Entry}
use quorum_market.Kv.Config.{Config}
use quorum_market.Kv.Store.{Store}
use quorum_market.Kv.Service.{Reply, read}
use quorum_market.Kv.Service.Refusals.{IsRefusal, read-IsRefusal}
use quorum_market.Kv.Server.{handle_read, entry_or_404}
use quorum_market.Kv.Client.{over_http, get_entry}

told :
    (r : Result (Option Entry)) → IsRefusal r → get_entry (over_http (entry_or_404 r)) ≡ over_http r
unfolding get_entry over_http entry_or_404 is_status status_of
told (ok none) h = refl
told (ok (some e)) h = refl
told (err e) (inl h) = rw h refl
told (err e) (inr h) = rw h refl

-- A client's `Get` through a node answers what the node's quorum read answers: an entry, that the key
-- is not there, or an error with the status of the read's error. A quorum that does not answer is
-- never told as a key that is not there.
pub get_reports_read :
    (cfg : Config) (now : ℕ) (cancel : Option Error) (replies : List Reply) (key : Str) (s : Store)
    → get_entry (over_http (handle_read cfg now cancel replies key s).0)
      ≡ over_http (read cfg now cancel replies key s).result
unfolding handle_read
get_reports_read cfg now cancel replies key s =
    told (read cfg now cancel replies key s).result (read-IsRefusal cfg now cancel replies key s)
