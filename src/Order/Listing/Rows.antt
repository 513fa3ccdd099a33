-- ===== src/Order/Listing/Rows.antt =====
-- Which orders `List` of internal/order/order.go shows.
use quorum_market.Common.{
  ◌≡◌, refl, subst, Bool, true, false, ◌==◌, ◌||◌, Option, none, some, List, [], ◌∷◌, ◌++◌, ℤ, Str,
  is_empty, has_prefix, All, arith, Bool-cases, inl, inr,
}
use quorum_market.Httpx.Errors.{Result, ok}
use quorum_market.Kv.Entry.{Entry}
use quorum_market.Order.{Order, order_key}
use quorum_market.Order.Listing.{
  customer_prefix, list_limit, reverse_onto, records, list_orders, listed,
}

-- No byte of an id is a colon, which ends it in a key.
unfoldable pub has_colon : Str → Bool
has_colon [] = false
has_colon (c ∷ s) = c == b':' || has_colon s

-- An id with the colon that ends it.
same_id :
    (a b rest : Str)
    → has_colon a ≡ false
    → has_colon b ≡ false
    → has_prefix (a ++ (b':' ∷ rest)) (b ++ (b':' ∷ [])) ≡ true
    → a ≡ b
unfolding has_colon has_prefix
same_id [] [] rest p q h = refl
same_id [] (c ∷ b) rest p q h = absurd (ground (arith, q, h))
same_id (c ∷ a) [] rest p q h = absurd (ground (arith, p, h))
same_id (c ∷ a) (d ∷ b) rest p q h = ground (arith, p, q, h, same_id a b rest)

same_customer :
    (customer_id owner order_id : Str)
    → has_colon customer_id ≡ false
    → has_colon owner ≡ false
    → has_prefix (order_key owner order_id) (customer_prefix customer_id) ≡ true
    → owner ≡ customer_id
unfolding order_key customer_prefix has_prefix
same_customer customer_id owner order_id p q h = same_id owner customer_id order_id q p h

module _ {F : Type 0} (decode : Str → Option (Order F)) where
  -- A row stands under the key of the order that it holds, and its customer's id has no colon.
  pub record IsFiledRow (prefix : Str) (e : Entry) (o : Order F) : Type 0 where
    pub in_range : has_prefix e.key prefix ≡ true
    pub filed : e.key ≡ order_key o.customer_id o.order_id
    pub plain : has_colon o.customer_id ≡ false

  pub reverse_onto-All :
      (P : Order F → Type 0) (done os : List (Order F))
      → All P done
      → All P os
      → All P (reverse_onto done os)
  unfolding reverse_onto
  reverse_onto-All P done [] d h = d
  reverse_onto-All P done (o ∷ os) d h = reverse_onto-All P (o ∷ done) os (h.0, d) h.1

  records-own :
      (customer_id : Str) (es : List Entry)
      → has_colon customer_id ≡ false
      → All
          (λ e.
            (o : Order F) → decode e.value ≡ some o → IsFiledRow (customer_prefix customer_id) e o)
          es
      → All (λ o. o.customer_id ≡ customer_id) (records decode es)
  unfolding records
  records-own customer_id [] p h = tt
  records-own customer_id (e ∷ es) p h = go (decode e.value) refl (records-own customer_id es p h.1)
    where
      go :
          (d : Option (Order F))
          → decode e.value ≡ d
          → All (λ o. o.customer_id ≡ customer_id) (records decode es)
          → All
              (λ o. o.customer_id ≡ customer_id)
              (elim d [ none ↦ records decode es | some o ↦ o ∷ records decode es ])
      go none q rest = rest
      go (some o) q rest =
          let row = h.0 o q in
          (
            same_customer customer_id o.customer_id o.order_id p row.plain (
                subst (λ k. has_prefix k (customer_prefix customer_id) ≡ true) row.filed
                  row.in_range),
            rest,
          )

  -- A list that answers shows only orders of the customer it is asked for, if every row of the scan
  -- has the customer's prefix and stands under the key of the order it holds, and no customer's id
  -- has a colon.
  pub listed_orders_are_own :
      (scan : Str → ℤ → Result (List Entry)) (entries : List Entry) (customer_id : Str) (limit : ℤ)
      (os : List (Order F))
      → has_colon customer_id ≡ false
      → scan (customer_prefix customer_id) (list_limit limit) ≡ ok entries
      → All
          (λ e.
            (o : Order F) → decode e.value ≡ some o → IsFiledRow (customer_prefix customer_id) e o)
          entries
      → list_orders decode scan customer_id limit ≡ ok os
      → All (λ o. o.customer_id ≡ customer_id) os
  unfolding list_orders listed
  listed_orders_are_own scan entries customer_id limit os plain scanned filed h =
      elim (Bool-cases (is_empty customer_id)) [
        | inl nobody ↦ absurd (ground (arith, nobody, h))
        | inr known ↦
            let shown : reverse_onto [] (records decode entries) ≡ os =
              ground (arith, known, scanned, h) in
            subst (All (λ o. o.customer_id ≡ customer_id)) shown (
              reverse_onto-All (λ o. o.customer_id ≡ customer_id) [] (records decode entries) tt
                (records-own customer_id entries plain filed))
      ]
