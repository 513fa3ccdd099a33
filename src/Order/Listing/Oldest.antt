-- ===== src/Order/Listing/Oldest.antt =====
-- Which rows `List` of internal/order/order.go leaves out, and in which order it shows the others.
use quorum_market.Common.{
  ℕ, zero, suc, ◌≡◌, refl, sym, ap, subst, ◌∙◌, false, Option, none, some, List, [], ◌∷◌, ℤ, pos,
  pos_part, negsuc, ltb, Str, str_lt, is_empty, length, take, All, All-mem, All-of_mem, Assoc,
  arith, Bool-cases, inl, inr,
}
use quorum_market.Httpx.Errors.{Result, ok}
use quorum_market.Kv.Entry.{Entry}
use quorum_market.Kv.Store.{sort_by_key}
use quorum_market.Kv.Store.Scan.{
  IsSorted, NotBelow, sort_by_key-IsSorted, sort_by_key-mem, mem-take, take-all,
}
use quorum_market.Kv.Service.Scans.{values, finish_scan}
use quorum_market.Order.{Order, order_key}
use quorum_market.Order.Listing.Rows.{reverse_onto-All}
use quorum_market.Order.Listing.{
  customer_prefix, list_limit, reverse_onto, records, list_orders, listed,
}

list_limit-positive : (limit : ℤ) → (n : ℕ) × (list_limit limit ≡ pos (suc n))
list_limit-positive (pos zero) = (49, refl)
list_limit-positive (pos (suc n)) = elim (Bool-cases (ltb 200 (suc n))) [
  | inl big ↦ (49, ground (arith, big))
  | inr small ↦ (n, ground (arith, small))
]
list_limit-positive (negsuc n) = (49, ground arith)

finish_scan-take :
    (n : ℕ) (merged : Assoc Entry)
    → finish_scan (pos (suc n)) (ok merged) ≡ ok (take (suc n) (sort_by_key (values merged)))
unfolding finish_scan
finish_scan-take n merged = elim (Bool-cases (ltb (suc n) (length (sort_by_key (values merged))))) [
  | inl long ↦ ground (arith, long)
  | inr short ↦
      rw short
        (ap ok (sym (take-all (suc n) (sort_by_key (values merged)) (ground (arith, short)))))
]

-- The rows after the first `n`.
abbrev pub after : ℕ → List Entry → List Entry
after zero es = es
after (suc n) [] = []
after (suc n) (e ∷ es) = after n es

after-All : (P : Entry → Type 0) (n : ℕ) (es : List Entry) → All P es → All P (after n es)
after-All P zero es h = h
after-All P (suc n) [] h = tt
after-All P (suc n) (e ∷ es) h = after-All P n es h.1

take-All : (P : Entry → Type 0) (n : ℕ) (es : List Entry) → All P es → All P (take n es)
take-All P n es h = All-of_mem P (take n es) (λ e m. All-mem P es e (mem-take n es e m) h)

take-IsSorted : (n : ℕ) (es : List Entry) → IsSorted es → IsSorted (take n es)
take-IsSorted zero es s = tt
take-IsSorted (suc n) [] s = tt
take-IsSorted (suc n) (e ∷ es) s = (take-All (NotBelow e) n es s.0, take-IsSorted n es s.1)

-- Nothing after the first rows has a smaller key than one of these.
take-NotBelow :
    (n : ℕ) (es : List Entry) → IsSorted es → All (λ e. All (NotBelow e) (after n es)) (take n es)
take-NotBelow zero es s = tt
take-NotBelow (suc n) [] s = tt
take-NotBelow (suc n) (e ∷ es) s = (after-All (NotBelow e) n es s.0, take-NotBelow n es s.1)

module _ {F : Type 0} where
  abbrev pub key_of : Order F → Str
  key_of o = order_key o.customer_id o.order_id

  -- No order stands before one with a greater key.
  abbrev pub IsNewestFirst : List (Order F) → Type 0
  IsNewestFirst [] = Unit
  IsNewestFirst (o ∷ os) = All (λ p. str_lt (key_of o) (key_of p) ≡ false) os × IsNewestFirst os

  abbrev IsOldestFirst : List (Order F) → Type 0
  IsOldestFirst [] = Unit
  IsOldestFirst (o ∷ os) = All (λ p. str_lt (key_of p) (key_of o) ≡ false) os × IsOldestFirst os

  -- What is still to be reversed has no smaller key than what has been.
  abbrev Follows : List (Order F) → List (Order F) → Type 0
  Follows done os = All (λ p. All (λ d. str_lt (key_of p) (key_of d) ≡ false) done) os

  Follows-cons :
      (done : List (Order F)) (o : Order F) (os : List (Order F))
      → All (λ p. str_lt (key_of p) (key_of o) ≡ false) os
      → Follows done os
      → Follows (o ∷ done) os
  Follows-cons done o [] a f = tt
  Follows-cons done o (p ∷ os) a f = ((a.0, f.0), Follows-cons done o os a.1 f.1)

  reverse_onto-IsNewestFirst :
      (done os : List (Order F))
      → IsNewestFirst done
      → IsOldestFirst os
      → Follows done os
      → IsNewestFirst (reverse_onto done os)
  unfolding reverse_onto
  reverse_onto-IsNewestFirst done [] d a f = d
  reverse_onto-IsNewestFirst done (o ∷ os) d a f =
      reverse_onto-IsNewestFirst (o ∷ done) os (f.0, d) a.1 (Follows-cons done o os a.0 f.1)

  Follows-nil : (os : List (Order F)) → Follows [] os
  Follows-nil [] = tt
  Follows-nil (o ∷ os) = (tt, Follows-nil os)

module _ {F : Type 0} (decode : Str → Option (Order F)) where
  -- The row stands under the key of the order that it holds, if it holds one.
  abbrev pub IsFiled : Entry → Type 0
  IsFiled e = (o : Order F) → decode e.value ≡ some o → e.key ≡ key_of o

  records-All :
      (P : Str → Type 0) (es : List Entry)
      → All IsFiled es
      → All (λ e. P e.key) es
      → All (λ o. P (key_of o)) (records decode es)
  unfolding records
  records-All P [] filed h = tt
  records-All P (e ∷ es) filed h = go (decode e.value) refl (records-All P es filed.1 h.1)
    where
      go :
          (d : Option (Order F))
          → decode e.value ≡ d
          → All (λ o. P (key_of o)) (records decode es)
          → All
              (λ o. P (key_of o))
              (elim d [ none ↦ records decode es | some o ↦ o ∷ records decode es ])
      go none q rest = rest
      go (some o) q rest = (subst P (filed.0 o q) h.0, rest)

  records-IsOldestFirst :
      (es : List Entry) → All IsFiled es → IsSorted es → IsOldestFirst (records decode es)
  unfolding records
  records-IsOldestFirst [] filed s = tt
  records-IsOldestFirst (e ∷ es) filed s =
      go (decode e.value) refl (records-IsOldestFirst es filed.1 s.1)
    where
      go :
          (d : Option (Order F))
          → decode e.value ≡ d
          → IsOldestFirst (records decode es)
          → IsOldestFirst (elim d [ none ↦ records decode es | some o ↦ o ∷ records decode es ])
      go none q rest = rest
      go (some o) q rest = (
        subst (λ k. All (λ p. str_lt (key_of p) k ≡ false) (records decode es)) (filed.0 o q)
            (records-All (λ k. str_lt k e.key ≡ false) es filed.1 s.0),
        rest,
      )

  -- A list that answers shows orders by decreasing key, and none that it shows has a greater key than
  -- a row that it leaves out because the merged answers of the read quorum have more rows than its
  -- limit: it leaves out the greatest keys. Every row of these stands under the key of its order.
  pub list_leaves_out_newest :
      (scan : Str → ℤ → Result (List Entry)) (merged : Assoc Entry) (customer_id : Str) (limit : ℤ)
      (os : List (Order F))
      → scan (customer_prefix customer_id) (list_limit limit)
        ≡ finish_scan (list_limit limit) (ok merged)
      → All IsFiled (values merged)
      → list_orders decode scan customer_id limit ≡ ok os
      → IsNewestFirst os
        × All
            (λ o.
              All
                (λ e. str_lt e.key (key_of o) ≡ false)
                (after (pos_part (list_limit limit)) (sort_by_key (values merged))))
            os
  unfolding list_orders listed
  list_leaves_out_newest scan merged customer_id limit os scanned filed h =
      let rows = sort_by_key (values merged) in
      let n = pos_part (list_limit limit) in
      let shown = take n rows in
      let (m, e) = list_limit-positive limit in
      let answered : scan (customer_prefix customer_id) (list_limit limit) ≡ ok shown =
        scanned
        ∙ subst (λ l. finish_scan l (ok merged) ≡ ok (take (pos_part l) rows)) (sym e)
            (finish_scan-take m merged) in
      let sorted = sort_by_key-IsSorted (values merged) in
      let filed_rows : All IsFiled rows =
        All-of_mem IsFiled rows
          (λ x i. All-mem IsFiled (values merged) x (sort_by_key-mem x (values merged) i) filed) in
      let filed_shown = take-All IsFiled n rows filed_rows in
      let newest_first =
        reverse_onto-IsNewestFirst [] (records decode shown) tt
          (records-IsOldestFirst shown filed_shown (take-IsSorted n rows sorted))
          (Follows-nil (records decode shown)) in
      let below =
        reverse_onto-All decode (λ o. All (λ x. str_lt x.key (key_of o) ≡ false) (after n rows)) []
          (records decode shown) tt
          (records-All (λ k. All (λ x. str_lt x.key k ≡ false) (after n rows)) shown filed_shown
            (take-NotBelow n rows sorted)) in
      elim (Bool-cases (is_empty customer_id)) [
        | inl nobody ↦ absurd (ground (arith, nobody, h))
        | inr known ↦
            let same : reverse_onto [] (records decode shown) ≡ os =
              ground (arith, known, answered, h) in
            (
              subst IsNewestFirst same newest_first,
              subst (All (λ o. All (λ x. str_lt x.key (key_of o) ≡ false) (after n rows))) same
                  below,
            )
      ]
