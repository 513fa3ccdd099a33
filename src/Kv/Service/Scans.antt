-- ===== src/Kv/Service/Scans.antt =====
-- internal/kv/service.go: `Scan` over a read quorum. A peer's answer is its entries or an error, and
-- the answers stand in the order in which they arrive.
pub mod ScanResults
use quorum_market.Common.{
  ℕ, suc, Bool, true, false, not, ◌&&◌, Option, none, some, List, [], ◌∷◌, ℤ, pos, pos_part, ltb,
  leb, ltb_ℤ, leb_ℤ, if◌then◌else◌, length, take, Str, Assoc, lookup, insert,
}
use quorum_market.Httpx.Errors.{Error, errorf, wrap, Result, ok, err}
use quorum_market.Kv.Entry.{Entry, newer}
use quorum_market.Kv.Config.{Config}
use quorum_market.Kv.Store.{sort_by_key}
use quorum_market.Kv.Service.{sleep_ctx, pred_ℤ, learned}

-- `merged[entry.Key] = entry` for the node's own entries
unfoldable pub own_entries : List Entry → Assoc Entry → Assoc Entry
own_entries [] merged = merged
own_entries (e ∷ es) merged = own_entries es (insert e.key e merged)

-- The loop over the entries of one answer.
unfoldable pub merge_entries : List Entry → Assoc Entry → Assoc Entry
merge_entries [] merged = merged
merge_entries (e ∷ es) merged =
    merge_entries es (if learned (lookup e.key merged) e then insert e.key e merged else merged)

-- The loop of `mergePeerScans`.
unfoldable pub merge_loop : ℕ → ℕ → Assoc Entry → List (Result (List Entry)) → Result (Assoc Entry)
unfolding merge_entries
merge_loop need answered merged [] = err (errorf 503)
merge_loop need answered merged (err e ∷ rest) = merge_loop need answered merged rest
merge_loop need answered merged (ok es ∷ rest) =
    let merged' = merge_entries es merged in
    let later = merge_loop need (suc answered) merged' rest in
    if leb need (suc answered) then ok merged' else later

unfoldable pub values : Assoc Entry → List Entry
values [] = []
values ((k, e) ∷ m) = e ∷ values m

-- What `Scan` does with the merged entries.
unfoldable pub finish_scan : ℤ → Result (Assoc Entry) → Result (List Entry)
unfolding values
finish_scan limit (err e) = err e
finish_scan limit (ok merged) =
    let out = sort_by_key (values merged) in
    if ltb (pos_part limit) (length out) && ltb_ℤ (pos 0) limit
    then ok (take (pos_part limit) out)
    else ok out

-- `own` is what the node's store scans.
unfoldable pub scan_quorum :
    Config → Option Error → List Entry → List (Result (List Entry)) → ℤ → Result (List Entry)
unfolding own_entries merge_loop finish_scan
scan_quorum cfg cancel own answers limit =
    let need = pred_ℤ cfg.read_quorum in
    let merged = own_entries own [] in
    elim (sleep_ctx cfg.read_delay cancel) [
      | some e ↦ err (wrap 503 e)
      | none ↦
          finish_scan limit
            (if ltb_ℤ (pos 0) need then merge_loop (pos_part need) 0 merged answers else ok merged)
    ]
