-- ===== src/Kv/Service/Reads.antt =====
-- The read fan-out of internal/kv/service.go.
use mathlib.Core.List.{append_assoc}
use quorum_market.Common.{
  ℕ, zero, suc, ◌+◌, ◌-◌, ◌<◌, ◌≡◌, refl, inl, inr, ◌⊎◌, Bool, true, false, Option, none, some,
  List, [], ◌∷◌, ◌++◌, arith, ltb, leb, if◌then◌else◌, length, length-append, count,
  count-le-length, All, Str, Memᴰ,
}
use quorum_market.Httpx.Errors.{errorf, wrap, Result, ok, err, is_ok}
use quorum_market.Kv.Entry.{Entry}
use quorum_market.Kv.Entry.Order.{newer_irrefl, newer_mono}
use quorum_market.Kv.Store.Apply.{Covers}
use quorum_market.Kv.Service.{Reply, reply, better, read_loop}

abbrev pub is_answer : Reply → Bool
is_answer (reply p (ok found)) = true
is_answer (reply p (err e)) = false

-- How many peers answered, whether or not they hold the key.
abbrev pub answers : List Reply → ℕ
answers = count is_answer

-- A read succeeds exactly if enough peers answer.
pub read_loop_exact :
    (n need answered failed : ℕ) (best : Option Entry) (collected replies : List Reply)
    → n ≡ answered + failed + length replies
    → answered < need
    → is_ok (read_loop n need answered failed best collected replies)
      ≡ leb need (answered + answers replies)
unfolding read_loop
read_loop_exact n need answered failed best collected [] all short = ground arith
read_loop_exact n need answered failed best collected (reply p (err e) ∷ rest) all short = ground (
  arith,
  read_loop_exact n need answered (suc failed) best collected rest,
  count-le-length is_answer rest,
)
read_loop_exact n need answered failed best collected (reply p (ok found) ∷ rest) all short =
    ground (
      arith,
      read_loop_exact n need (suc answered) failed (better best found)
          (collected ++ reply p (ok found) ∷ []) rest,
    )

-- `r` is not older than what was found.
abbrev pub NotOlder : Option Entry → Option Entry → Type 0
NotOlder r none = Unit
NotOlder r (some e) = Covers r e

better-NotOlder_left : (best found : Option Entry) → NotOlder (better best found) best
unfolding better
better-NotOlder_left none none = tt
better-NotOlder_left none (some e) = tt
better-NotOlder_left (some b) none = newer_irrefl b
better-NotOlder_left (some b) (some e) = ground (arith, newer_irrefl b, newer_mono b b e)

better-NotOlder_right : (best found : Option Entry) → NotOlder (better best found) found
unfolding better
better-NotOlder_right none none = tt
better-NotOlder_right (some b) none = tt
better-NotOlder_right none (some e) = newer_irrefl e
better-NotOlder_right (some b) (some e) = ground (arith, newer_irrefl e)

pub better-NotOlder_mono :
    (best found r : Option Entry) → NotOlder best r → NotOlder (better best found) r
unfolding better
better-NotOlder_mono best found none h = tt
better-NotOlder_mono none found (some e) h = absurd h
better-NotOlder_mono (some b) none (some e) h = h
better-NotOlder_mono (some b) (some f) (some e) h = ground (arith, newer_mono e b f)

abbrev pub AnswerNotOlder : Option Entry → Reply → Type 0
AnswerNotOlder r (reply p (ok found)) = NotOlder r found
AnswerNotOlder r (reply p (err e)) = Unit

-- What the loop knows: `best` is the local entry or a collected answer, and none of these is newer.
pub record IsBest (held best : Option Entry) (collected : List Reply) : Type 0 where
  pub covers_held : NotOlder best held
  pub covers_answers : All (AnswerNotOlder best) collected
  pub is_seen : (best ≡ held) ⊎ ((p : Str) × Memᴰ (reply p (ok best)) collected)

answer_mono :
    (best found : Option Entry) (r : Reply)
    → AnswerNotOlder best r
    → AnswerNotOlder (better best found) r
answer_mono best found (reply p (ok f)) h = better-NotOlder_mono best found f h
answer_mono best found (reply p (err e)) h = tt

All-snoc :
    (best found : Option Entry) (p : Str) (collected : List Reply)
    → All (AnswerNotOlder best) collected
    → All (AnswerNotOlder (better best found)) (collected ++ reply p (ok found) ∷ [])
All-snoc best found p [] h = (better-NotOlder_right best found, tt)
All-snoc best found p (r ∷ rs) h = (answer_mono best found r h.0, All-snoc best found p rs h.1)

mem-snoc_old : (r x : Reply) (rs : List Reply) → Memᴰ r rs → Memᴰ r (rs ++ x ∷ [])
mem-snoc_old r x [] m = elim m [ ]
mem-snoc_old r x (y ∷ rs) (Memᴰ.head q) = Memᴰ.head q
mem-snoc_old r x (y ∷ rs) (Memᴰ.tail m) = Memᴰ.tail (mem-snoc_old r x rs m)

mem-snoc_new : (x : Reply) (rs : List Reply) → Memᴰ x (rs ++ x ∷ [])
mem-snoc_new x [] = Memᴰ.head refl
mem-snoc_new x (y ∷ rs) = Memᴰ.tail (mem-snoc_new x rs)

better_cases :
    (best found : Option Entry) → (better best found ≡ best) ⊎ (better best found ≡ found)
unfolding better
better_cases best none = inl refl
better_cases none (some e) = inr refl
better_cases (some b) (some e) = ground arith

IsBest-better :
    (held best found : Option Entry) (p : Str) (collected : List Reply)
    → IsBest held best collected
    → IsBest held (better best found) (collected ++ reply p (ok found) ∷ [])
IsBest-better held best found p collected h = record {
  covers_held = better-NotOlder_mono best found held h.covers_held;
  covers_answers = All-snoc best found p collected h.covers_answers;
  is_seen = elim (better_cases best found) [
    | inl kept ↦ rw kept (elim h.is_seen [
      | inl same ↦ inl same
      | inr (q, m) ↦ inr (q, mem-snoc_old (reply q (ok best)) (reply p (ok found)) collected m)
    ])
    | inr taken ↦ rw taken (inr (p, mem-snoc_new (reply p (ok found)) collected))
  ];
}

abbrev pub OnOk : (Option Entry → List Reply → Type 0) → Result (Option Entry × List Reply) → Type 0
OnOk P (ok (best, collected)) = P best collected
OnOk P (err e) = Unit

OnOk-if :
    (P : Option Entry → List Reply → Type 0) (b : Bool) (x y : Result (Option Entry × List Reply))
    → (b ≡ true → OnOk P x)
    → (b ≡ false → OnOk P y)
    → OnOk P (if b then x else y)
OnOk-if P true x y hx hy = hx refl
OnOk-if P false x y hx hy = hy refl

-- What a read collected: `need` replies, and the best of them and of the local entry.
abbrev pub IsQuorumRead : ℕ → Option Entry → Option Entry → List Reply → Type 0
IsQuorumRead need held best collected = IsBest held best collected × (length collected ≡ need)

pub read_loop_best :
    (n need answered failed : ℕ) (held best : Option Entry) (collected replies : List Reply)
    → IsBest held best collected
    → length collected ≡ answered
    → answered < need
    → OnOk (IsQuorumRead need held) (read_loop n need answered failed best collected replies)
unfolding read_loop
read_loop_best n need answered failed held best collected [] h c short =
    OnOk-if (IsQuorumRead need held) (ltb answered need) (err (errorf 503)) (ok (best, collected))
      (λ _. tt) (λ e. absurd (ground arith))
read_loop_best n need answered failed held best collected (reply p (err e) ∷ rest) h c short =
    OnOk-if (IsQuorumRead need held) (ltb (n - suc failed) need) (err (wrap 503 e))
      (read_loop n need answered (suc failed) best collected rest) (λ _. tt)
      (λ _. read_loop_best n need answered (suc failed) held best collected rest h c short)
read_loop_best n need answered failed held best collected (reply p (ok found) ∷ rest) h c short =
    let collected' = collected ++ reply p (ok found) ∷ [] in
    let h' = IsBest-better held best found p collected h in
    let c' : length collected' ≡ suc answered =
      omega (arith, c, length-append collected (reply p (ok found) ∷ [])) in
    OnOk-if (IsQuorumRead need held) (leb need (suc answered)) (ok (better best found, collected'))
      (read_loop n need (suc answered) failed (better best found) collected' rest)
      (λ enough. (h', ground (arith, c', short)))
      (λ more.
        read_loop_best n need (suc answered) failed held (better best found) collected' rest h' c'
          (ground (arith, short)))

-- The first `k` replies that are answers.
unfoldable pub first_answers : ℕ → List Reply → List Reply
first_answers zero replies = []
first_answers (suc k) [] = []
first_answers (suc k) (reply p (err e) ∷ rest) = first_answers (suc k) rest
first_answers (suc k) (reply p (ok found) ∷ rest) = reply p (ok found) ∷ first_answers k rest

abbrev pub Collected : List Reply → Option Entry → List Reply → Type 0
Collected expected best collected = collected ≡ expected

-- The loop collects the first `k` answers, `k` being how many are still needed.
pub read_loop_collects :
    (n need answered failed k : ℕ) (best : Option Entry) (collected replies : List Reply)
    → answered + suc k ≡ need
    → OnOk
        (Collected (collected ++ first_answers (suc k) replies))
        (read_loop n need answered failed best collected replies)
unfolding read_loop first_answers
read_loop_collects n need answered failed k best collected [] short =
    OnOk-if (Collected (collected ++ [])) (ltb answered need) (err (errorf 503))
      (ok (best, collected)) (λ _. tt) (λ e. absurd (ground arith))
read_loop_collects n need answered failed k best collected (reply p (err e) ∷ rest) short =
    OnOk-if (Collected (collected ++ first_answers (suc k) rest)) (ltb (n - suc failed) need)
      (err (wrap 503 e)) (read_loop n need answered (suc failed) best collected rest) (λ _. tt)
      (λ _. read_loop_collects n need answered (suc failed) k best collected rest short)
read_loop_collects n need answered failed zero best collected (reply p (ok found) ∷ rest) short =
    OnOk-if (Collected (collected ++ reply p (ok found) ∷ [])) (leb need (suc answered))
      (ok (better best found, collected ++ reply p (ok found) ∷ []))
      (read_loop n need (suc answered) failed (better best found)
        (collected ++ reply p (ok found) ∷ []) rest)
      (λ _. refl) (λ e. absurd (ground arith))
read_loop_collects n need answered failed (suc k) best collected (reply p (ok found) ∷ rest) short =
    OnOk-if (Collected (collected ++ reply p (ok found) ∷ first_answers (suc k) rest))
      (leb need (suc answered)) (ok (better best found, collected ++ reply p (ok found) ∷ []))
      (read_loop n need (suc answered) failed (better best found)
        (collected ++ reply p (ok found) ∷ []) rest)
      (λ e. absurd (ground arith))
      (λ _. rw (← append_assoc collected (reply p (ok found) ∷ []) (first_answers (suc k) rest)) (
        read_loop_collects n need (suc answered) failed k (better best found)
          (collected ++ reply p (ok found) ∷ []) rest (omega arith)))
