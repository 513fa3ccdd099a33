-- ===== src/Kv/Service/Refusals.antt =====
-- The errors of a quorum read of internal/kv/service.go.
use quorum_market.Common.{
  ℕ, suc, ◌-◌, ◌≡◌, refl, ◌⊎◌, inl, inr, Option, none, some, List, [], ◌∷◌, ◌++◌, pos, pos_part,
  ltb, leb, leb_ℤ, length, Str, is_empty, Bool-cases, Option-cases,
}
use quorum_market.Httpx.Errors.{Error, Result, ok, err, status_of}
use quorum_market.Kv.Entry.{Entry}
use quorum_market.Kv.Config.{Config}
use quorum_market.Kv.Store.{Store, get}
use quorum_market.Kv.Service.{
  Reply, reply, read, read_loop, read_quorum, finish_read, better, sleep_ctx, pred_ℤ,
}

abbrev IsUnavailable : {A : Type 0} → Result A → Type 0
IsUnavailable (ok a) = Unit
IsUnavailable (err e) = status_of (some e) ≡ 503

read_loop-IsUnavailable :
    (n need answered failed : ℕ) (best : Option Entry) (collected replies : List Reply)
    → IsUnavailable (read_loop n need answered failed best collected replies)
unfolding read_loop status_of
read_loop-IsUnavailable n need answered failed best collected [] =
    elim (Bool-cases (ltb answered need)) [ inl few ↦ rw few refl | inr enough ↦ rw enough tt ]
read_loop-IsUnavailable n need answered failed best collected (reply p (err e) ∷ rest) =
    let later = read_loop-IsUnavailable n need answered (suc failed) best collected rest in
    elim (Bool-cases (ltb (n - suc failed) need)) [
      | inl lost ↦ rw lost refl
      | inr open_still ↦ rw open_still later
    ]
read_loop-IsUnavailable n need answered failed best collected (reply p (ok found) ∷ rest) =
    let later =
      read_loop-IsUnavailable n need (suc answered) failed (better best found)
        (collected ++ reply p (ok found) ∷ []) rest in
    elim (Bool-cases (leb need (suc answered))) [
      | inl enough ↦ rw enough tt
      | inr more ↦ rw more later
    ]

finish_read-IsUnavailable :
    (cfg : Config) (held : Option Entry) (s : Store) (r : Result (Option Entry × List Reply))
    → IsUnavailable r
    → IsUnavailable (finish_read cfg held s r).result
unfolding finish_read
finish_read-IsUnavailable cfg held s (err e) h = h
finish_read-IsUnavailable cfg held s (ok (none, collected)) h = tt
finish_read-IsUnavailable cfg held s (ok (some best, collected)) h = tt

-- The errors of a read are those of a request without a key and of a quorum that does not answer.
abbrev pub IsRefusal : {A : Type 0} → Result A → Type 0
IsRefusal (ok a) = Unit
IsRefusal (err e) = (status_of (some e) ≡ 400) ⊎ (status_of (some e) ≡ 503)

IsUnavailable-IsRefusal : {A : Type 0} (r : Result A) → IsUnavailable r → IsRefusal r
IsUnavailable-IsRefusal (ok a) h = tt
IsUnavailable-IsRefusal (err e) h = inr h

pub read-IsRefusal :
    (cfg : Config) (now : ℕ) (cancel : Option Error) (replies : List Reply) (key : Str) (s : Store)
    → IsRefusal (read cfg now cancel replies key s).result
unfolding read read_quorum status_of
read-IsRefusal cfg now cancel replies key s = elim (Bool-cases (is_empty key)) [
  | inl nameless ↦ rw nameless (inl refl)
  | inr named ↦ elim (Option-cases (sleep_ctx cfg.read_delay cancel)) [
    | inr (e, cut) ↦ rw (named, cut) (inr refl)
    | inl slept ↦ elim (Bool-cases (leb_ℤ (pred_ℤ cfg.read_quorum) (pos 0))) [
      | inl alone ↦ rw (named, slept, alone) tt
      | inr several ↦
          elim (Bool-cases (ltb (length cfg.peers) (pos_part (pred_ℤ cfg.read_quorum)))) [
            | inl too_few ↦ rw (named, slept, several, too_few) (inr refl)
            | inr enough ↦
                let held = get now key s in
                let need = pos_part (pred_ℤ cfg.read_quorum) in
                rw (named, slept, several, enough)
                  (IsUnavailable-IsRefusal _ (
                    finish_read-IsUnavailable cfg held s _
                      (read_loop-IsUnavailable (length cfg.peers) need 0 0 held [] replies)))
          ]
    ]
  ]
]
