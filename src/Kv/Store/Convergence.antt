-- ===== src/Kv/Store/Convergence.antt =====
-- Nodes that receive replicated entries through `Apply` of internal/kv/store.go, in different
-- orders.
use quorum_market.Common.{
  ◌≡◌, refl, sym, ◌∙◌, ap, false, Option, none, some, List, [], ◌∷◌, ◌⊎◌, inl, inr, ℤ, Bool-cases,
  Str, str_eq, str_eq_iff, lookup, All, All-mem, Memᴰ,
}
use quorum_market.Kv.Entry.{Entry, newer}
use quorum_market.Kv.Entry.Order.{newer_irrefl, newer_mono, newer_total}
use quorum_market.Kv.Store.{Store, new_store, apply, apply_all}
use quorum_market.Kv.Store.Apply.{winner, lookup-apply}

-- `r` is the newest of the entries for `k` among those that `P` holds of.
abbrev IsNewest : (Entry → Type 0) → Str → Option Entry → Type 0
IsNewest P k none = (e : Entry) → P e → e.key ≡ k → ⊥
IsNewest P k (some m) = P m × (m.key ≡ k) × ((e : Entry) → P e → e.key ≡ k → newer e m ≡ false)

abbrev Or : Entry → (Entry → Type 0) → Entry → Type 0
Or e P x = (x ≡ e) ⊎ P x

module _ (P : Entry → Type 0) (e : Entry) (k : Str) where
  IsNewest-winner :
      (r : Option Entry) → e.key ≡ k → IsNewest P k r → IsNewest (Or e P) k (some (winner e r))
  IsNewest-winner none same h = (
    inl refl,
    same,
    λ x. elim [ inl q ↦ λ _. rw q (newer_irrefl e) | inr p ↦ λ kx. absurd (h x p kx) ],
  )
  IsNewest-winner (some m) same h = elim (Bool-cases (newer e m)) [
    | inl up ↦ rw up (
      inl refl,
      same,
      λ x. elim [
        | inl q ↦ λ _. rw q (newer_irrefl e)
        | inr p ↦ λ kx. newer_mono x m e (h.2 x p kx) up
      ],
    )
    | inr keep ↦
        rw keep (inr h.0, h.1, λ x. elim [ inl q ↦ λ _. rw q keep | inr p ↦ λ kx. h.2 x p kx ])
  ]

  IsNewest-other :
      (r : Option Entry) → str_eq e.key k ≡ false → IsNewest P k r → IsNewest (Or e P) k r
  IsNewest-other none other h = λ x. elim [
    | inl q ↦ λ kx. cc ((str_eq_iff e.key k).1 (ap (λ y. y.key) (sym q) ∙ kx))
    | inr p ↦ λ kx. h x p kx
  ]
  IsNewest-other (some m) other h = (
    inr h.0,
    h.1,
    λ x. elim [
      | inl q ↦ λ kx. cc ((str_eq_iff e.key k).1 (ap (λ y. y.key) (sym q) ∙ kx))
      | inr p ↦ λ kx. h.2 x p kx
    ],
  )

  IsNewest-apply :
      (s : Store)
      → IsNewest P k (lookup k s.entries)
      → IsNewest (Or e P) k (lookup k (apply e s).0.entries)
  IsNewest-apply s h = elim (Bool-cases (str_eq e.key k)) [
    | inl same ↦
        rw (lookup-apply e s k, same)
          (IsNewest-winner (lookup k s.entries) ((str_eq_iff e.key k).0 same) h)
    | inr other ↦ rw (lookup-apply e s k, other) (IsNewest-other (lookup k s.entries) other h)
  ]

-- What has been received once `es` has arrived after the entries of `P`.
abbrev Received : List Entry → (Entry → Type 0) → Entry → Type 0
Received [] P x = P x
Received (e ∷ es) P x = Received es (Or e P) x

IsNewest-apply_all :
    (es : List Entry) (P : Entry → Type 0) (k : Str) (s : Store)
    → IsNewest P k (lookup k s.entries)
    → IsNewest (Received es P) k (lookup k (apply_all es s).entries)
unfolding apply_all
IsNewest-apply_all [] P k s h = h
IsNewest-apply_all (e ∷ es) P k s h =
    IsNewest-apply_all es (Or e P) k (apply e s).0 (IsNewest-apply P e k s h)

mem-Received :
    (es : List Entry) (P : Entry → Type 0) (x : Entry) → Received es P x → Memᴰ x es ⊎ P x
mem-Received [] P x r = inr r
mem-Received (e ∷ es) P x r = elim (mem-Received es (Or e P) x r) [
  | inl m ↦ inl (Memᴰ.tail m)
  | inr (inl q) ↦ inl (Memᴰ.head q)
  | inr (inr p) ↦ inr p
]

Received-old : (es : List Entry) (P : Entry → Type 0) (x : Entry) → P x → Received es P x
Received-old [] P x p = p
Received-old (e ∷ es) P x p = Received-old es (Or e P) x (inr p)

Received-mem : (es : List Entry) (P : Entry → Type 0) (x : Entry) → Memᴰ x es → Received es P x
Received-mem [] P x m = elim m [ ]
Received-mem (e ∷ es) P x (Memᴰ.head q) = Received-old es (Or e P) x (inl q)
Received-mem (e ∷ es) P x (Memᴰ.tail m) = Received-mem es (Or e P) x m

abbrev Nothing : Entry → Type 0
Nothing x = ⊥

-- A node that starts empty holds, of each key, the newest entry that arrived for it.
IsNewest-of_arrivals :
    (es : List Entry) (node_id k : Str)
    → IsNewest (Received es Nothing) k (lookup k (apply_all es (new_store node_id)).entries)
unfolding lookup
IsNewest-of_arrivals es node_id k = IsNewest-apply_all es Nothing k (new_store node_id) (λ e p _. p)

-- A version and an origin name one write of a key.
abbrev pub IsWriteOf : (Str → ℤ → Str → Entry) → Entry → Type 0
IsWriteOf write e = e ≡ write e.key e.version e.origin

module _ (write : Str → ℤ → Str → Entry) where
  one_write :
      (a b : Entry)
      → IsWriteOf write a
      → IsWriteOf write b
      → a.key ≡ b.key
      → newer a b ≡ false
      → newer b a ≡ false
      → a ≡ b
  one_write a b wa wb k p q = let (v, o) = newer_total a b p q in cc

  IsNewest-unique :
      (P Q : Entry → Type 0) (k : Str) (r t : Option Entry)
      → ((x : Entry) → P x → Q x × IsWriteOf write x)
      → ((x : Entry) → Q x → P x × IsWriteOf write x)
      → IsNewest P k r
      → IsNewest Q k t
      → r ≡ t
  IsNewest-unique P Q k none none pq qp h g = refl
  IsNewest-unique P Q k none (some m) pq qp h g = absurd (h m (qp m g.0).0 g.1)
  IsNewest-unique P Q k (some m) none pq qp h g = absurd (g m (pq m h.0).0 h.1)
  IsNewest-unique P Q k (some m) (some n) pq qp h g = ap some (
      one_write m n (pq m h.0).1 (qp n g.0).1 (h.1 ∙ sym g.1) (g.2 m (pq m h.0).0 h.1)
        (h.2 n (qp n g.0).0 g.1))

  Received-both :
      (xs ys : List Entry)
      → ((e : Entry) → Memᴰ e xs → Memᴰ e ys)
      → ((e : Entry) → Memᴰ e xs → IsWriteOf write e)
      → (x : Entry) → Received xs Nothing x
      → Received ys Nothing x × IsWriteOf write x
  Received-both xs ys sub w x r = elim (mem-Received xs Nothing x r) [
    | inl m ↦ (Received-mem ys Nothing x (sub x m), w x m)
    | inr bad ↦ absurd bad
  ]

  -- Two nodes that start empty and receive the same set of entries, each in its own order and with
  -- any repetitions, hold the same entry for every key, if a version and an origin name one write.
  pub replicas_converge :
      (a b : Str) (xs ys : List Entry)
      → ((e : Entry) → Memᴰ e xs → Memᴰ e ys)
      → ((e : Entry) → Memᴰ e ys → Memᴰ e xs)
      → All (IsWriteOf write) xs
      → (k : Str)
      → lookup k (apply_all xs (new_store a)).entries
        ≡ lookup k (apply_all ys (new_store b)).entries
  replicas_converge a b xs ys sub sup w k =
      IsNewest-unique (Received xs Nothing) (Received ys Nothing) k
        (lookup k (apply_all xs (new_store a)).entries)
        (lookup k (apply_all ys (new_store b)).entries)
        (Received-both xs ys sub (λ x m. All-mem (IsWriteOf write) xs x m w))
        (Received-both ys xs sup (λ x m. All-mem (IsWriteOf write) xs x (sup x m) w))
        (IsNewest-of_arrivals xs a k) (IsNewest-of_arrivals ys b k)
