-- ===== src/Kv/Tests.antt =====
-- The store, the quorums and the transactions of internal/kv on concrete inputs.
use mathlib.Core.List.Perm
use quorum_market.Common.{
  ℕ, ◌+◌, ◌≡◌, refl, true, false, none, some, List, [], ◌∷◌, arith, pos, Str, bytes, is_empty,
  str_eq, lookup, insert, leb_ℤ,
}
use quorum_market.Httpx.Errors.{plain, Result, ok, err, is_ok}
use quorum_market.Kv.Entry.{Entry, newer, expired}
use quorum_market.Kv.Config.{Config, mode_leaderless}
use quorum_market.Kv.Store.{Store, new_store, get, coordinator_write, apply}
use quorum_market.Kv.Store.Apply.{Covers}
use quorum_market.Kv.Service.{Push, Reply, reply, sleep_ctx, peers_of, read}
use quorum_market.Kv.Service
use quorum_market.Kv.Service.Fanout.{acks}
use quorum_market.Kv.Service.Writes.{write_quorum_exact}
use quorum_market.Kv.Service.Reads.{IsBest, first_answers}
use quorum_market.Kv.Service.ReadResults.{needed, read_newest}
use quorum_market.Kv.Service.Scans.{own_entries, finish_scan, scan_quorum}
use quorum_market.Kv.Service.Scans.ScanResults.{scan_merges}
use quorum_market.Kv.Store.{sort_by_key, apply_all}
use quorum_market.Kv.Server.{handle_read}
use quorum_market.Kv.Client.{over_http, get_entry}
use quorum_market.Kv.Client.Absence.{get_reports_read}
use quorum_market.Kv.Cluster.{Node, received, reply_of}
use quorum_market.Kv.Cluster.ReadAfterWrite.{read_after_write}

abbrev key : Str
key = bytes "k"

abbrev second : ℕ
second = 1000000000

abbrev node_config : List Str → Config
node_config peers = record {
  node_id = bytes "a";
  mode = mode_leaderless;
  role = bytes "peer";
  peers = peers;
  write_quorum = pos 2;
  read_quorum = pos 2;
  write_delay = pos 0;
  read_delay = pos 0;
  sequential = false;
  read_repair = true;
}

-- node `a`, whose peers are `b` and `c`
abbrev config_a : Config
config_a = node_config (bytes "b" ∷ bytes "c" ∷ [])

abbrev config_b : Config
config_b = record (node_config (bytes "a" ∷ bytes "c" ∷ [])) { node_id = bytes "b" }

abbrev empty_a : Store
empty_a = new_store (bytes "a")

abbrev first_write : Entry
first_write = record {
  key = key;
  value = bytes "one";
  version = pos 1;
  origin = bytes "a";
  expires_at = pos 0;
}

abbrev second_write : Entry
second_write = record first_write { value = bytes "two"; version = pos 2 }

abbrev holding : Entry → Store
holding e = record { entries = (key, e) ∷ []; node_id = bytes "a" }

-- `c` acknowledges, `b` does not
abbrev pushes : List Push
pushes =
    record { peer = bytes "b"; error = some plain } ∷ record { peer = bytes "c"; error = none } ∷ []

-- `b` has an older entry, `c` fails
abbrev replies : List Reply
replies = reply (bytes "b") (ok (some first_write)) ∷ reply (bytes "c") (err plain) ∷ []

abbrev node : Str → Node
node id = record {
  url = id;
  store = new_store id;
  push_error = none;
  applied_late = false;
  fetch_error = none;
}

abbrev node_b : Node
node_b = record (node (bytes "b")) { push_error = some plain }

-- `c` takes the push, `a` does not answer the fetch
abbrev node_a : Node
node_a = record (node (bytes "a")) { fetch_error = some plain }

abbrev seen_by_b : List Reply
seen_by_b = reply (bytes "a") (err plain) ∷ reply (bytes "c") (ok (some first_write)) ∷ []

read_after_write_example : Covers (some first_write) first_write
unfolding Service.write Service.read received reply_of get coordinator_write apply lookup insert
    str_eq is_empty expired newer Service.replicate Service.read_quorum Service.better
read_after_write_example =
    read_after_write config_a config_b second second 2 1 none none node_a node_b
      (node (bytes "c") ∷ []) pushes seen_by_b key (bytes "one") (pos 0) first_write
      (some first_write) refl refl refl refl (omega arith) (Perm.refl pushes) refl refl
      (refl, (refl, tt)) (Perm.refl seen_by_b) refl

write_quorum_exact_example :
    let out = Service.write config_a second none pushes key (bytes "one") (pos 0) empty_a in
    (out.store ≡ (coordinator_write second key (bytes "one") (pos 0) empty_a).0)
    × (is_ok out.result ≡ leb_ℤ (pos 2) (pos (1 + acks pushes)))
unfolding str_eq is_empty
write_quorum_exact_example =
    write_quorum_exact config_a second none pushes key (bytes "one") (pos 0) empty_a refl refl refl

read_newest_example :
    IsBest
      (get second key (holding second_write))
      (some second_write)
      (first_answers (needed config_a) replies)
unfolding Service.read get lookup str_eq is_empty expired newer Service.better
read_newest_example =
    read_newest config_a second none replies key (holding second_write) (some second_write) refl

abbrev scan_answers : List (Result (List Entry))
scan_answers = err plain ∷ ok (second_write ∷ []) ∷ []

scan_merges_example :
    scan_quorum config_a none (first_write ∷ []) scan_answers (pos 0)
    ≡ finish_scan (pos 0) (
        ok
          (apply_all
            (second_write ∷ [])
            (record { entries = own_entries (first_write ∷ []) []; node_id = bytes "a" })).entries)
unfolding scan_quorum newer sort_by_key lookup insert str_eq
scan_merges_example = scan_merges config_a none (first_write ∷ []) scan_answers (pos 0) refl refl

get_reports_read_example :
    get_entry (over_http (handle_read config_a 5 none replies key empty_a).0)
    ≡ over_http (read config_a 5 none replies key empty_a).result
get_reports_read_example = get_reports_read config_a 5 none replies key empty_a
