-- ===== src/Kv/Cluster/Intersection.antt =====
-- Quorums that overlap, over the nodes of a cluster.
use quorum_market.Common.{
  ℕ, zero, suc, ◌+◌, ◌≤◌, ◌<◌, ◌≡◌, subst, inl, inr, ◌⊎◌, Bool, true, false, not, Option, none,
  some, List, [], ◌∷◌, arith, length, count, map, All, Str, Bool-cases, lookup, Perm, count-perm,
  count-map, count_exclusive, count_mono,
}
use quorum_market.Httpx.Errors.{ok, err}
use quorum_market.Kv.Entry.{Entry, newer}
use quorum_market.Kv.Entry.Order.{newer_neg_trans}
use quorum_market.Kv.Store.{get, apply}
use quorum_market.Kv.Store.Apply.{Covers, apply-Covers}
use quorum_market.Kv.Service.{Reply, reply}
use quorum_market.Kv.Service.Fanout.{is_ack}
use quorum_market.Kv.Service.Reads.{answers, first_answers, NotOlder, AnswerNotOlder, IsBest}
use quorum_market.Kv.Cluster.{Node, push_of, received, reply_of}

-- What is held covers the entry.
abbrev pub covers : Entry → Option Entry → Bool
covers e none = false
covers e (some m) = not (newer e m)

abbrev pub holds : Str → Entry → Node → Bool
holds key e n = covers e (lookup key n.store.entries)

abbrev has : Entry → Reply → Bool
has e (reply p (ok found)) = covers e found
has e (reply p (err x)) = false

abbrev lacks : Entry → Reply → Bool
lacks e (reply p (ok found)) = not (covers e found)
lacks e (reply p (err x)) = false

Covers-of_covers : (e : Entry) (r : Option Entry) → covers e r ≡ true → Covers r e
Covers-of_covers e none h = cc
Covers-of_covers e (some m) h = ground arith

covers_of_Covers : (e : Entry) (r : Option Entry) → Covers r e → covers e r ≡ true
covers_of_Covers e none h = absurd h
covers_of_Covers e (some m) h = rw h

-- what is not older than a cover is a cover
NotOlder-Covers :
    (e : Entry) (found r : Option Entry) → NotOlder found r → covers e r ≡ true → Covers found e
NotOlder-Covers e found none n h = cc
NotOlder-Covers e none (some m) n h = absurd n
NotOlder-Covers e (some f) (some m) n h = newer_neg_trans e m f (ground arith) n

-- among the first `k` answers, those that lack the entry are few
first_answers-has :
    (e : Entry) (k : ℕ) (replies : List Reply)
    → k ≤ answers replies
    → k ≤ count (has e) (first_answers k replies) + count (lacks e) replies
unfolding first_answers
first_answers-has e zero replies h = omega arith
first_answers-has e (suc k) [] h = elim h [ ]
first_answers-has e (suc k) (reply p (err x) ∷ rest) h = first_answers-has e (suc k) rest h
first_answers-has e (suc k) (reply p (ok found) ∷ rest) h =
    ground (arith, first_answers-has e k rest)

some_has-Covers :
    (e : Entry) (found : Option Entry) (rs : List Reply)
    → All (AnswerNotOlder found) rs
    → 0 < count (has e) rs
    → Covers found e
some_has-Covers e found [] h pos = elim pos [ ]
some_has-Covers e found (reply p (err x) ∷ rs) h more = some_has-Covers e found rs h.1 more
some_has-Covers e found (reply p (ok r) ∷ rs) h more = elim (Bool-cases (covers e r)) [
  | inl c ↦ NotOlder-Covers e found r h.0 c
  | inr other ↦ some_has-Covers e found rs h.1 (rw other at more)
]

pub received-holds :
    (key : Str) (e : Entry) (n : Node)
    → e.key ≡ key
    → is_ack (push_of n) ≡ true
    → holds key e (received e n) ≡ true
unfolding received
received-holds key e n k ack =
    subst (λ x. holds x e (received e n) ≡ true) k
      (rw ack
        (covers_of_Covers e (lookup e.key (apply e n.store).0.entries) (apply-Covers e n.store)))

-- The node's copy of the key has not expired.
abbrev pub IsLive : ℕ → Str → Node → Type 0
IsLive t key n = get t key n.store ≡ lookup key n.store.entries

live_lacks :
    (t : ℕ) (key : Str) (e : Entry) (n : Node)
    → IsLive t key n
    → holds key e n ≡ true
    → lacks e (reply_of t key n) ≡ false
unfolding reply_of
live_lacks t key e n live h = ground (arith, live)

All-lacks :
    (t : ℕ) (key : Str) (e : Entry) (ns : List Node)
    → All (IsLive t key) ns
    → All (λ n. holds key e n ≡ true → lacks e (reply_of t key n) ≡ false) ns
All-lacks t key e [] h = tt
All-lacks t key e (n ∷ ns) h = (live_lacks t key e n h.0, All-lacks t key e ns h.1)

-- Enough of the nodes that are read hold the entry, or the reader itself does: the result of a read
-- is not older than the entry.
pub holders_seen :
    (t : ℕ) (key : Str) (e : Entry) (nodes : List Node) (replies : List Reply) (k : ℕ)
    (held found : Option Entry)
    → All (IsLive t key) nodes
    → Perm replies (map (reply_of t key) nodes)
    → k ≤ answers replies
    → IsBest held found (first_answers k replies)
    → (covers e held ≡ true) ⊎ (length nodes < k + count (holds key e) nodes)
    → Covers found e
holders_seen t key e nodes replies k held found live order enough best (inl c) =
    NotOlder-Covers e found held best.covers_held c
holders_seen t key e nodes replies k held found live order enough best (inr many) =
    some_has-Covers e found (first_answers k replies) best.covers_answers (
      omega (
        arith,
        first_answers-has e k replies enough,
        count-perm (lacks e) replies (map (reply_of t key) nodes) order,
        count-map (lacks e) (reply_of t key) nodes,
        count_exclusive (holds key e) (λ n. lacks e (reply_of t key n)) nodes
            (All-lacks t key e nodes live),
      ))

-- every peer that acknowledges holds the entry
pub acks-le-holders :
    (key : Str) (e : Entry) (nodes : List Node)
    → e.key ≡ key
    → count (λ n. is_ack (push_of n)) nodes ≤ count (holds key e) (map (received e) nodes)
acks-le-holders key e nodes k = omega (
  arith,
  count-map (holds key e) (received e) nodes,
  count_mono (λ n. is_ack (push_of n)) (λ n. holds key e (received e n)) nodes
      (λ n. received-holds key e n k),
)
