-- ===== src/Kv/Service/ReadResults.antt =====
-- `Read` of internal/kv/service.go, from its guards to the repair.
use quorum_market.Common.{
  ℕ, suc, ◌-◌, ◌≤◌, ◌≡◌, refl, sym, ap, subst, ◌∙◌, inl, inr, ◌⊎◌, false, Option, none, some, List,
  [], arith, pos, pos_part, leb_ℤ, length, Str, is_empty, count-le-length, Bool-cases,
}
use quorum_market.Httpx.Errors.{Error, Result, ok, err, is_ok}
use quorum_market.Kv.Entry.{Entry}
use quorum_market.Kv.Entry.Order.{newer_irrefl}
use quorum_market.Kv.Config.{Config}
use quorum_market.Kv.Store.{Store, get}
use quorum_market.Kv.Service.{Reply, pred_ℤ, sleep_ctx, read_loop, finish_read, read_quorum, read}
use quorum_market.Kv.Service.Writes.{leb-pred_ℤ}
use quorum_market.Kv.Service.Reads.{
  is_answer, answers, read_loop_exact, read_loop_best, first_answers, Collected, read_loop_collects,
  OnOk, IsBest, IsQuorumRead,
}

finish_read_ok :
    (cfg : Config) (held : Option Entry) (s : Store) (r : Result (Option Entry × List Reply))
    → is_ok (finish_read cfg held s r).result ≡ is_ok r
unfolding finish_read
finish_read_ok cfg held s (err e) = refl
finish_read_ok cfg held s (ok (none, collected)) = refl
finish_read_ok cfg held s (ok (some best, collected)) = refl

-- A read that is not refused or cancelled succeeds exactly if, with the node's own copy, the read
-- quorum answers.
pub read_quorum_exact :
    (cfg : Config) (now : ℕ) (cancel : Option Error) (replies : List Reply) (key : Str) (s : Store)
    → is_empty key ≡ false
    → sleep_ctx cfg.read_delay cancel ≡ none
    → length replies ≡ length cfg.peers
    → is_ok (read cfg now cancel replies key s).result
      ≡ leb_ℤ cfg.read_quorum (pos (suc (answers replies)))
unfolding read read_quorum
read_quorum_exact cfg now cancel replies key s given awake all =
    let need = pos_part (pred_ℤ cfg.read_quorum) in
    let held = get now key s in
    rw (← leb-pred_ℤ cfg.read_quorum (answers replies)) (
      ground (
        arith,
        read_loop_exact (length cfg.peers) need 0 0 held [] replies,
        finish_read_ok cfg held s (read_loop (length cfg.peers) need 0 0 held [] replies),
        count-le-length is_answer replies,
      ))

pub finish_read_from :
    (cfg : Config) (held : Option Entry) (s : Store) (P : Option Entry → List Reply → Type 0)
    (r : Result (Option Entry × List Reply)) (found : Option Entry)
    → OnOk P r
    → (finish_read cfg held s r).result ≡ ok found
    → (c : List Reply) × P found c × (r ≡ ok (found, c))
unfolding finish_read
finish_read_from cfg held s P (err e) found p h = cc
finish_read_from cfg held s P (ok (none, c)) found p h =
    let q : none ≡ found = cc in (c, subst (λ x. P x c) q p, ap (λ x. ok (x, c)) q)
finish_read_from cfg held s P (ok (some best, c)) found p h =
    let q : some best ≡ found = cc in (c, subst (λ x. P x c) q p, ap (λ x. ok (x, c)) q)

-- The number of peers that must answer.
abbrev pub needed : Config → ℕ
needed cfg = pos_part (pred_ℤ cfg.read_quorum)

start-IsBest : (held : Option Entry) → IsBest held held []
start-IsBest none = record { covers_held = tt; covers_answers = tt; is_seen = inl refl }
start-IsBest (some e) = record {
  covers_held = newer_irrefl e;
  covers_answers = tt;
  is_seen = inl refl;
}

OnOk-both :
    (P Q : Option Entry → List Reply → Type 0) (r : Result (Option Entry × List Reply))
    → OnOk P r
    → OnOk Q r
    → OnOk (λ b c. P b c × Q b c) r
OnOk-both P Q (ok (b, c)) p q = (p, q)
OnOk-both P Q (err e) p q = tt

abbrev BestOf : Option Entry → List Reply → Option Entry → List Reply → Type 0
BestOf held expected best collected =
    IsQuorumRead (length expected) held best collected × (collected ≡ expected)

-- What the fan-out of a read establishes when it succeeds.
pub loop_finds :
    (cfg : Config) (held : Option Entry) (k : ℕ) (replies : List Reply)
    → OnOk
        (λ b c. IsQuorumRead (suc k) held b c × (c ≡ first_answers (suc k) replies))
        (read_loop (length cfg.peers) (suc k) 0 0 held [] replies)
loop_finds cfg held k replies =
    let n = length cfg.peers in
    OnOk-both (IsQuorumRead (suc k) held) (Collected (first_answers (suc k) replies))
      (read_loop n (suc k) 0 0 held [] replies)
      (read_loop_best n (suc k) 0 0 held held [] replies (start-IsBest held) refl (omega arith))
      (read_loop_collects n (suc k) 0 0 k held [] replies (omega arith))

read_quorum_newest :
    (cfg : Config) (key : Str) (held : Option Entry) (k : ℕ) (replies : List Reply) (s : Store)
    (found : Option Entry)
    → (read_quorum cfg key held (suc k) replies s).result ≡ ok found
    → IsBest held found (first_answers (suc k) replies)
unfolding read_quorum
read_quorum_newest cfg key held k replies s found h =
    let r = read_loop (length cfg.peers) (suc k) 0 0 held [] replies in
    let (c, p, q) =
      finish_read_from cfg held s
        (λ b c. IsQuorumRead (suc k) held b c × (c ≡ first_answers (suc k) replies)) r found
        (loop_finds cfg held k replies) h in
    subst (IsBest held found) p.1 p.0.0

-- A read that succeeds is local, or went through the fan-out.
pub read_cases :
    (cfg : Config) (now : ℕ) (cancel : Option Error) (replies : List Reply) (key : Str) (s : Store)
    (found : Option Entry)
    → (read cfg now cancel replies key s).result ≡ ok found
    → ((needed cfg ≡ 0) × (get now key s ≡ found) × ((read cfg now cancel replies key s).store ≡ s))
      ⊎ ((k : ℕ) × (needed cfg ≡ suc k)
          × (read cfg now cancel replies key s
              ≡ read_quorum cfg key (get now key s) (suc k) replies s))
unfolding read
read_cases cfg now cancel replies key s found h =
    elim (Bool-cases (leb_ℤ (pred_ℤ cfg.read_quorum) (pos 0))) [
      | inl low ↦ inl (ground arith, ground arith, ground arith)
      | inr high ↦ inr (needed cfg - 1, ground arith, ground arith)
    ]

-- A read that succeeds returns the newest of the node's own unexpired entry and of the first
-- answers of its peers, as many of these as the read quorum wants beside the node itself: none of
-- them is newer, and it is one of them, "no entry" included.
pub read_newest :
    (cfg : Config) (now : ℕ) (cancel : Option Error) (replies : List Reply) (key : Str) (s : Store)
    (found : Option Entry)
    → (read cfg now cancel replies key s).result ≡ ok found
    → IsBest (get now key s) found (first_answers (needed cfg) replies)
read_newest cfg now cancel replies key s found h =
    elim (read_cases cfg now cancel replies key s found h) [
      | inl (low, local, _) ↦ rw low (
          unfold first_answers in
          subst (λ x. IsBest (get now key s) x []) local (start-IsBest (get now key s)))
      | inr (k, high, fan) ↦ rw high (
          read_quorum_newest cfg key (get now key s) k replies s found
            (ap (λ o. o.result) (sym fan) ∙ h))
    ]

pub read_ok_answers :
    (cfg : Config) (now : ℕ) (cancel : Option Error) (replies : List Reply) (key : Str) (s : Store)
    (found : Option Entry)
    → length replies ≡ length cfg.peers
    → (read cfg now cancel replies key s).result ≡ ok found
    → needed cfg ≤ answers replies
unfolding read read_quorum
read_ok_answers cfg now cancel replies key s found all h =
    let need = pos_part (pred_ℤ cfg.read_quorum) in
    let held = get now key s in
    ground (
      arith,
      read_loop_exact (length cfg.peers) need 0 0 held [] replies,
      finish_read_ok cfg held s (read_loop (length cfg.peers) need 0 0 held [] replies),
      count-le-length is_answer replies,
    )
