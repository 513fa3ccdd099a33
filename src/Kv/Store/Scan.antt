-- ===== src/Kv/Store/Scan.antt =====
-- `Scan` of internal/kv/store.go against a description of the entries that it may return.
use quorum_market.Common.{
  ℕ, zero, suc, ◌≤◌, ◌≡◌, refl, ap, ◌∙◌, true, false, not, ◌&&◌, inl, inr, ◌⊎◌, arith, ℤ, pos,
  pos_part, leb_ℤ, if◌then◌else◌, Bool-cases, Str, has_prefix, str_lt, str_lt_trans, str_lt_total,
  str_lt_irrefl, List, [], ◌∷◌, Assoc, length, take, length-take-le, All, All-mem, All-of_mem, Memᴰ,
  mem-cons_cases,
}
use quorum_market.Kv.Entry.{Entry, expired}
use quorum_market.Kv.Store.{insert_by_key, sort_by_key, scan_loop, scan}

-- The entries that a scan may return, in the order of the map.
abbrev pub hits : ℕ → Str → Assoc Entry → List Entry
hits now prefix [] = []
hits now prefix ((k, e) ∷ walk) =
    let rest = hits now prefix walk in
    if has_prefix k prefix && not (expired e now) then e ∷ rest else rest

-- The bound that a limit stands for.
abbrev pub room : ℤ → ℕ
room limit = if leb_ℤ limit (pos 0) then 1000 else pos_part limit

take-nil : (n : ℕ) → take {A = Entry} n [] ≡ []
take-nil zero = refl
take-nil (suc n) = refl

scan_loop-eq-take :
    (now : ℕ) (prefix : Str) (n : ℕ) (walk : Assoc Entry)
    → scan_loop now prefix n walk ≡ take n (hits now prefix walk)
unfolding scan_loop
scan_loop-eq-take now prefix zero [] = refl
scan_loop-eq-take now prefix (suc n) [] = refl
scan_loop-eq-take now prefix zero (p ∷ walk) = refl
scan_loop-eq-take now prefix (suc n) ((k, e) ∷ walk) =
    ground (arith, scan_loop-eq-take now prefix n walk, scan_loop-eq-take now prefix (suc n) walk)

pub take-all : (n : ℕ) (xs : List Entry) → length xs ≤ n → take n xs ≡ xs
take-all zero [] h = refl
take-all (suc n) [] h = refl
take-all zero (x ∷ xs) h = elim h [ ]
take-all (suc n) (x ∷ xs) h = ap (λ ys. x ∷ ys) (take-all n xs (omega arith))

pub mem-take : (n : ℕ) (xs : List Entry) (e : Entry) → Memᴰ e (take n xs) → Memᴰ e xs
mem-take zero xs e m = elim m [ ]
mem-take (suc n) [] e m = elim m [ ]
mem-take (suc n) (x ∷ xs) e (Memᴰ.head q) = Memᴰ.head q
mem-take (suc n) (x ∷ xs) e (Memᴰ.tail m) = Memᴰ.tail (mem-take n xs e m)

-- Sorting keeps the elements.
insert_by_key-mem :
    (a e : Entry) (xs : List Entry) → Memᴰ e (insert_by_key a xs) → (e ≡ a) ⊎ Memᴰ e xs
unfolding insert_by_key
insert_by_key-mem a e [] m = mem-cons_cases e a [] m
insert_by_key-mem a e (x ∷ xs) m = elim (Bool-cases (str_lt x.key a.key)) [
  | inl below ↦ elim (mem-cons_cases e x (insert_by_key a xs) (rw below at m)) [
    | inl q ↦ inr (Memᴰ.head q)
    | inr later ↦ elim (insert_by_key-mem a e xs later) [
      | inl q ↦ inl q
      | inr old ↦ inr (Memᴰ.tail old)
    ]
  ]
  | inr here ↦ mem-cons_cases e a (x ∷ xs) (rw here at m)
]

mem-insert_by_key :
    (a e : Entry) (xs : List Entry) → (e ≡ a) ⊎ Memᴰ e xs → Memᴰ e (insert_by_key a xs)
unfolding insert_by_key
mem-insert_by_key a e [] (inl q) = Memᴰ.head q
mem-insert_by_key a e [] (inr m) = elim m [ ]
mem-insert_by_key a e (x ∷ xs) s = elim (Bool-cases (str_lt x.key a.key)) [
  | inl below ↦ rw below (elim s [
    | inl q ↦ Memᴰ.tail (mem-insert_by_key a e xs (inl q))
    | inr m ↦ elim (mem-cons_cases e x xs m) [
      | inl q ↦ Memᴰ.head q
      | inr old ↦ Memᴰ.tail (mem-insert_by_key a e xs (inr old))
    ]
  ])
  | inr here ↦ rw here (elim s [ inl q ↦ Memᴰ.head q | inr m ↦ Memᴰ.tail m ])
]

pub sort_by_key-mem : (e : Entry) (xs : List Entry) → Memᴰ e (sort_by_key xs) → Memᴰ e xs
unfolding sort_by_key
sort_by_key-mem e [] m = m
sort_by_key-mem e (x ∷ xs) m = elim (insert_by_key-mem x e (sort_by_key xs) m) [
  | inl q ↦ Memᴰ.head q
  | inr old ↦ Memᴰ.tail (sort_by_key-mem e xs old)
]

mem-sort_by_key : (e : Entry) (xs : List Entry) → Memᴰ e xs → Memᴰ e (sort_by_key xs)
unfolding sort_by_key
mem-sort_by_key e [] m = m
mem-sort_by_key e (x ∷ xs) m =
    mem-insert_by_key x e (sort_by_key xs)
      (elim (mem-cons_cases e x xs m) [ inl q ↦ inl q | inr old ↦ inr (mem-sort_by_key e xs old) ])

length-insert_by_key : (a : Entry) (xs : List Entry) → length (insert_by_key a xs) ≡ suc (length xs)
unfolding insert_by_key
length-insert_by_key a [] = refl
length-insert_by_key a (x ∷ xs) = ground (arith, length-insert_by_key a xs)

length-sort_by_key : (xs : List Entry) → length (sort_by_key xs) ≡ length xs
unfolding sort_by_key
length-sort_by_key [] = refl
length-sort_by_key (x ∷ xs) =
    length-insert_by_key x (sort_by_key xs) ∙ ap suc (length-sort_by_key xs)

-- No key stands after a greater one.
abbrev pub NotBelow : Entry → Entry → Type 0
NotBelow x y = str_lt y.key x.key ≡ false

abbrev pub IsSorted : List Entry → Type 0
IsSorted [] = Unit
IsSorted (x ∷ xs) = All (NotBelow x) xs × IsSorted xs

NotBelow-trans : (a x y : Entry) → NotBelow a x → NotBelow x y → NotBelow a y
NotBelow-trans a x y p q = elim (Bool-cases (str_lt y.key a.key)) [
  | inr fine ↦ fine
  | inl bad ↦ elim (Bool-cases (str_lt x.key y.key)) [
    | inl up ↦ cc (str_lt_trans x.key y.key a.key up bad)
    | inr level ↦ cc (str_lt_total x.key y.key level q)
  ]
]

NotBelow-of_lt : (x a : Entry) → str_lt x.key a.key ≡ true → NotBelow x a
NotBelow-of_lt x a h = ground (arith, str_lt_trans x.key a.key x.key, str_lt_irrefl x.key)

insert_by_key-IsSorted : (a : Entry) (xs : List Entry) → IsSorted xs → IsSorted (insert_by_key a xs)
unfolding insert_by_key
insert_by_key-IsSorted a [] s = (tt, tt)
insert_by_key-IsSorted a (x ∷ xs) s = elim (Bool-cases (str_lt x.key a.key)) [
  | inl below ↦ rw below (
    All-of_mem (NotBelow x) (insert_by_key a xs) (λ y m. elim (insert_by_key-mem a y xs m) [
      | inl q ↦ rw q (NotBelow-of_lt x a below)
      | inr old ↦ All-mem (NotBelow x) xs y old s.0
    ]),
    insert_by_key-IsSorted a xs s.1,
  )
  | inr here ↦ rw here (
    (
      here,
      All-of_mem (NotBelow a) xs
          (λ y m. NotBelow-trans a x y here (All-mem (NotBelow x) xs y m s.0)),
    ),
    s,
  )
]

pub sort_by_key-IsSorted : (xs : List Entry) → IsSorted (sort_by_key xs)
unfolding sort_by_key
sort_by_key-IsSorted [] = tt
sort_by_key-IsSorted (x ∷ xs) = insert_by_key-IsSorted x (sort_by_key xs) (sort_by_key-IsSorted xs)

-- Whatever the order in which `range` walks the map, a scan returns live entries under the prefix
-- alone, sorted by key, and no more of them than the limit allows.
pub scan_sound :
    (now : ℕ) (walk : Assoc Entry) (prefix : Str) (limit : ℤ)
    → IsSorted (scan now walk prefix limit)
      × (length (scan now walk prefix limit) ≤ room limit)
      × All (λ e. Memᴰ e (hits now prefix walk)) (scan now walk prefix limit)
unfolding scan
scan_sound now walk prefix limit =
    let n = room limit in
    rw (scan_loop-eq-take now prefix n walk) (
      sort_by_key-IsSorted (take n (hits now prefix walk)),
      rw (length-sort_by_key (take n (hits now prefix walk)))
          (length-take-le n (hits now prefix walk)),
      All-of_mem (λ e. Memᴰ e (hits now prefix walk)) (sort_by_key (take n (hits now prefix walk)))
          (λ e m.
            mem-take n (hits now prefix walk) e
              (sort_by_key-mem e (take n (hits now prefix walk)) m)),
    )

-- Where the live entries under the prefix fit the limit, a scan returns every one of them.
pub scan_complete :
    (now : ℕ) (walk : Assoc Entry) (prefix : Str) (limit : ℤ)
    → length (hits now prefix walk) ≤ room limit
    → (e : Entry) → Memᴰ e (hits now prefix walk)
    → Memᴰ e (scan now walk prefix limit)
unfolding scan
scan_complete now walk prefix limit fits e m =
    rw
      (
        scan_loop-eq-take now prefix (room limit) walk,
        take-all (room limit) (hits now prefix walk) fits,
      )
      (mem-sort_by_key e (hits now prefix walk) m)
