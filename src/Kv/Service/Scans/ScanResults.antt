-- ===== src/Kv/Service/Scans/ScanResults.antt =====
-- The outcomes of `Scan` of internal/kv/service.go.
use quorum_market.Common.{
  ℕ, zero, suc, ◌+◌, ◌-◌, ◌<◌, ◌≡◌, refl, ap, sym, ◌∙◌, inl, inr, Bool, true, Option, none, List,
  [], ◌∷◌, ◌++◌, arith, ℤ, pos, pos_part, leb, leb_ℤ, ltb_ℤ, if◌then◌else◌, count, Bool-cases,
  Assoc, lookup, insert,
}
use quorum_market.Httpx.Errors.{Error, Result, ok, err, is_ok, Result-cases}
use quorum_market.Kv.Entry.{Entry}
use quorum_market.Kv.Config.{Config}
use quorum_market.Kv.Store.{Store, apply, apply_all}
use quorum_market.Kv.Service.{sleep_ctx, pred_ℤ, learned}
use quorum_market.Kv.Service.Writes.{leb-pred_ℤ}
use quorum_market.Kv.Service.ReadResults.{needed}
use quorum_market.Kv.Service.Scans.{
  own_entries, merge_entries, merge_loop, finish_scan, scan_quorum,
}

abbrev pub scanned : Result (List Entry) → Bool
scanned = is_ok

merge_loop_exact :
    (need answered : ℕ) (merged : Assoc Entry) (answers : List (Result (List Entry)))
    → answered < need
    → is_ok (merge_loop need answered merged answers) ≡ leb need (answered + count scanned answers)
unfolding merge_loop
merge_loop_exact need answered merged [] short = ground arith
merge_loop_exact need answered merged (err e ∷ rest) short =
    ground (arith, merge_loop_exact need answered merged rest)
merge_loop_exact need answered merged (ok es ∷ rest) short =
    ground (arith, merge_loop_exact need (suc answered) (merge_entries es merged) rest)

is_ok-finish_scan : (limit : ℤ) (r : Result (Assoc Entry)) → is_ok (finish_scan limit r) ≡ is_ok r
unfolding finish_scan
is_ok-finish_scan limit (err e) = refl
is_ok-finish_scan limit (ok merged) = ground arith

-- What the node's own entries and the answers are merged into.
abbrev merged_by : Config → List Entry → List (Result (List Entry)) → Result (Assoc Entry)
merged_by cfg own answers =
    let need = pred_ℤ cfg.read_quorum in
    if ltb_ℤ (pos 0) need
    then merge_loop (pos_part need) 0 (own_entries own []) answers
    else ok (own_entries own [])

scan_quorum_awake :
    (cfg : Config) (cancel : Option Error) (own : List Entry) (answers : List (Result (List Entry)))
    (limit : ℤ)
    → sleep_ctx cfg.read_delay cancel ≡ none
    → scan_quorum cfg cancel own answers limit ≡ finish_scan limit (merged_by cfg own answers)
unfolding scan_quorum
scan_quorum_awake cfg cancel own answers limit awake = ground (arith, awake)

-- A scan that is not cancelled succeeds exactly if, with the node itself, the read quorum answers.
pub scan_quorum_exact :
    (cfg : Config) (cancel : Option Error) (own : List Entry) (answers : List (Result (List Entry)))
    (limit : ℤ)
    → sleep_ctx cfg.read_delay cancel ≡ none
    → is_ok (scan_quorum cfg cancel own answers limit)
      ≡ leb_ℤ cfg.read_quorum (pos (suc (count scanned answers)))
scan_quorum_exact cfg cancel own answers limit awake =
    let need = pred_ℤ cfg.read_quorum in
    ap is_ok (scan_quorum_awake cfg cancel own answers limit awake)
    ∙ (is_ok-finish_scan limit (merged_by cfg own answers)
        ∙ (ground (arith, merge_loop_exact (pos_part need) 0 (own_entries own []) answers)
            ∙ leb-pred_ℤ cfg.read_quorum (count scanned answers)))

-- The entries of the first `k` answers.
abbrev pub first_scans : ℕ → List (Result (List Entry)) → List Entry
first_scans zero answers = []
first_scans (suc k) [] = []
first_scans (suc k) (err e ∷ rest) = first_scans (suc k) rest
first_scans (suc k) (ok es ∷ rest) = es ++ first_scans k rest

merge_entries-append :
    (xs ys : List Entry) (m : Assoc Entry)
    → merge_entries (xs ++ ys) m ≡ merge_entries ys (merge_entries xs m)
unfolding merge_entries
merge_entries-append [] ys m = refl
merge_entries-append (x ∷ xs) ys m =
    merge_entries-append xs ys (if learned (lookup x.key m) x then insert x.key x m else m)

-- Merging is what the store does with replicated entries.
merge_entries-apply_all :
    (es : List Entry) (s : Store) → merge_entries es s.entries ≡ (apply_all es s).entries
unfolding merge_entries apply_all apply
merge_entries-apply_all [] s = refl
merge_entries-apply_all (e ∷ es) s =
    let one : (if learned (lookup e.key s.entries) e then insert e.key e s.entries else s.entries)
        ≡ (apply e s).0.entries =
      ground arith in
    ap (merge_entries es) one ∙ merge_entries-apply_all es (apply e s).0

merge_loop-merge_entries :
    (need answered k : ℕ) (merged m : Assoc Entry) (answers : List (Result (List Entry)))
    → answered + suc k ≡ need
    → merge_loop need answered merged answers ≡ ok m
    → m ≡ merge_entries (first_scans (suc k) answers) merged
unfolding merge_loop
merge_loop-merge_entries need answered k merged m [] short h = cc
merge_loop-merge_entries need answered k merged m (err e ∷ rest) short h =
    merge_loop-merge_entries need answered k merged m rest short h
merge_loop-merge_entries need answered zero merged m (ok es ∷ rest) short h =
    ground (arith, merge_entries-append es [] merged)
merge_loop-merge_entries need answered (suc k) merged m (ok es ∷ rest) short h = ground (
  arith,
  merge_entries-append es (first_scans (suc k) rest) merged,
  merge_loop-merge_entries need (suc answered) k (merge_entries es merged) m rest,
)

merged_by-counted :
    (cfg : Config) (own : List Entry) (answers : List (Result (List Entry))) (m : Assoc Entry)
    → merged_by cfg own answers ≡ ok m
    → m ≡ merge_entries (first_scans (needed cfg) answers) (own_entries own [])
unfolding merge_entries
merged_by-counted cfg own answers m h = elim (Bool-cases (ltb_ℤ (pos 0) (pred_ℤ cfg.read_quorum))) [
  | inl many ↦
      let k = needed cfg - 1 in
      let some_needed : needed cfg ≡ suc k = ground arith in
      rw some_needed (
        merge_loop-merge_entries (suc k) 0 k (own_entries own []) m answers (omega arith) (
          ap (λ n. merge_loop n 0 (own_entries own []) answers) (sym some_needed)
          ∙ (ap
                (λ b.
                  if b
                  then merge_loop (needed cfg) 0 (own_entries own []) answers
                  else ok (own_entries own []))
                (sym many)
              ∙ h)))
  | inr alone ↦ let none_needed : needed cfg ≡ 0 = ground arith in rw none_needed (ground arith)
]

-- A scan that succeeds returns, sorted by key and cut at the limit, what a store holds that has
-- its own entries and receives those of the first answers as replicated entries, as many answers
-- as the read quorum wants beside the node itself.
pub scan_merges :
    (cfg : Config) (cancel : Option Error) (own : List Entry) (answers : List (Result (List Entry)))
    (limit : ℤ)
    → sleep_ctx cfg.read_delay cancel ≡ none
    → is_ok (scan_quorum cfg cancel own answers limit) ≡ true
    → let s : Store = record { entries = own_entries own []; node_id = cfg.node_id } in
      scan_quorum cfg cancel own answers limit
      ≡ finish_scan limit (ok (apply_all (first_scans (needed cfg) answers) s).entries)
scan_merges cfg cancel own answers limit awake fine =
    let s : Store = record { entries = own_entries own []; node_id = cfg.node_id } in
    let start = scan_quorum_awake cfg cancel own answers limit awake in
    elim (Result-cases (merged_by cfg own answers)) [
      | inl (m, q) ↦
          start
          ∙ ap (finish_scan limit) (
              q
              ∙ ap ok (
                  merged_by-counted cfg own answers m q
                  ∙ merge_entries-apply_all (first_scans (needed cfg) answers) s))
      | inr (e, q) ↦ absurd (cc (is_ok-finish_scan limit (merged_by cfg own answers)))
    ]
