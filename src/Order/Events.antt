-- ===== src/Order/Events.antt =====
-- `HandlePlaced` and `HandleShipped` of internal/order/order.go, record by record.
use quorum_market.Common.{
  ℕ, ◌≡◌, refl, sym, ap, ap₂, subst₂, ◌∙◌, inl, inr, false, not, Option, none, some, arith,
  if◌then◌else◌, Bool-cases, Str, is_empty, str_eq, str_eq_refl, str_eq_iff, Assoc, lookup,
  lookup-insert,
}
use quorum_market.Order.{
  Order, PlacedData, ShippedData, Faults, order_key, has_details, save, placed_record,
  shipped_record, store_record, handle_placed, handle_shipped, status_shipped,
}

module _ {F : Type 0} (zero_float : F) where
  -- A record as it is saved.
  abbrev pub settled : Order F → Order F
  settled o = record o { awaiting_details = not (has_details o) }

  abbrev pub kept_or : Option (Order F) → Option (Order F) → Option (Order F)
  kept_or old none = old
  kept_or old (some o) = some (settled o)

  unfoldable pub after_placed : ℕ → PlacedData F → Option (Order F) → Option (Order F)
  after_placed now d r = kept_or r (placed_record zero_float now d r)

  unfoldable pub after_shipped : ℕ → ShippedData → Option (Order F) → Option (Order F)
  after_shipped now d r = kept_or r (shipped_record zero_float now d r)

  -- All of a record but the time of its last update.
  abbrev pub forget : Option (Order F) → Option (Order F)
  forget none = none
  forget (some o) = some (record o { updated_at = 0 })

  records_commute :
      (t₁ t₂ t₃ t₄ : ℕ) (d : PlacedData F) (s : ShippedData) (r : Option (Order F))
      → d.order_id ≡ s.order_id
      → d.customer_id ≡ s.customer_id
      → forget (after_shipped t₂ s (after_placed t₁ d r))
        ≡ forget (after_placed t₄ d (after_shipped t₃ s r))
  unfolding after_placed after_shipped placed_record shipped_record has_details str_eq
  records_commute t₁ t₂ t₃ t₄ d s none o c = ground arith
  records_commute t₁ t₂ t₃ t₄ d s (some r) o c = ground arith

-- No call of the store fails.
abbrev pub no_faults : Faults
no_faults = record { get_error = none; put_error = none }

-- What is found under a key is a record of that key.
abbrev pub IsFiled : {F : Type 0} → Str → Str → Option (Order F) → Type 0
IsFiled customer_id order_id none = Unit
IsFiled customer_id order_id (some o) = (o.customer_id ≡ customer_id) × (o.order_id ≡ order_id)

module _ {F : Type 0} (zero_float : F) (now : ℕ) where
  placed-IsFiled :
      (d : PlacedData F) (r : Option (Order F))
      → IsFiled d.customer_id d.order_id r
      → IsFiled d.customer_id d.order_id (after_placed zero_float now d r)
  unfolding after_placed placed_record
  placed-IsFiled d none f = (refl, refl)
  placed-IsFiled d (some o) f = elim (Bool-cases (has_details o)) [
    | inl known ↦ rw known f
    | inr new ↦ rw new f
  ]

  shipped-IsFiled :
      (s : ShippedData) (r : Option (Order F))
      → IsFiled s.customer_id s.order_id r
      → IsFiled s.customer_id s.order_id (after_shipped zero_float now s r)
  unfolding after_shipped shipped_record str_eq
  shipped-IsFiled s none f = (refl, refl)
  shipped-IsFiled s (some o) f = elim (Bool-cases (str_eq o.status status_shipped)) [
    | inl done ↦ rw done f
    | inr new ↦ rw new f
  ]

  stored :
      (customer_id order_id j : Str) (db : Assoc (Order F)) (o : Option (Order F))
      → IsFiled customer_id order_id o
      → lookup j (store_record zero_float no_faults db o).1 ≡ (
          if str_eq (order_key customer_id order_id) j
          then kept_or zero_float (lookup j db) o
          else lookup j db)
  unfolding store_record save
  stored customer_id order_id j db none f = ground arith
  stored customer_id order_id j db (some o) f = rw (lookup-insert, f.0, f.1) refl

  at_key :
      (g : Option (Order F) → Option (Order F)) (k j : Str) (db : Assoc (Order F))
      → (if str_eq k j then kept_or zero_float (lookup j db) (g (lookup k db)) else lookup j db)
        ≡ (if str_eq k j then kept_or zero_float (lookup j db) (g (lookup j db)) else lookup j db)
  at_key g k j db = ground (arith, str_eq_iff k j)

  placed_record-IsFiled :
      (d : PlacedData F) (r : Option (Order F))
      → IsFiled d.customer_id d.order_id r
      → IsFiled d.customer_id d.order_id (placed_record zero_float now d r)
  unfolding placed_record
  placed_record-IsFiled d none f = (refl, refl)
  placed_record-IsFiled d (some o) f = elim (Bool-cases (has_details o)) [
    | inl known ↦ rw known tt
    | inr new ↦ rw new f
  ]

  shipped_record-IsFiled :
      (s : ShippedData) (r : Option (Order F))
      → IsFiled s.customer_id s.order_id r
      → IsFiled s.customer_id s.order_id (shipped_record zero_float now s r)
  unfolding shipped_record str_eq
  shipped_record-IsFiled s none f = (refl, refl)
  shipped_record-IsFiled s (some o) f = elim (Bool-cases (str_eq o.status status_shipped)) [
    | inl done ↦ rw done tt
    | inr new ↦ rw new f
  ]

  pub lookup-handle_placed :
      (d : PlacedData F) (db : Assoc (Order F)) (j : Str)
      → is_empty d.order_id ≡ false
      → is_empty d.customer_id ≡ false
      → IsFiled d.customer_id d.order_id (lookup (order_key d.customer_id d.order_id) db)
      → lookup j (handle_placed zero_float now no_faults d db).1 ≡ (
          if str_eq (order_key d.customer_id d.order_id) j
          then after_placed zero_float now d (lookup j db)
          else lookup j db)
  unfolding handle_placed after_placed
  lookup-handle_placed d db j oid cid f =
      let k = order_key d.customer_id d.order_id in
      rw (oid, cid)
        (stored d.customer_id d.order_id j db (placed_record zero_float now d (lookup k db))
            (placed_record-IsFiled d (lookup k db) f)
          ∙ at_key (placed_record zero_float now d) k j db)

  pub lookup-handle_shipped :
      (s : ShippedData) (db : Assoc (Order F)) (j : Str)
      → is_empty s.order_id ≡ false
      → is_empty s.customer_id ≡ false
      → IsFiled s.customer_id s.order_id (lookup (order_key s.customer_id s.order_id) db)
      → lookup j (handle_shipped zero_float now no_faults s db).1 ≡ (
          if str_eq (order_key s.customer_id s.order_id) j
          then after_shipped zero_float now s (lookup j db)
          else lookup j db)
  unfolding handle_shipped after_shipped
  lookup-handle_shipped s db j oid cid f =
      let k = order_key s.customer_id s.order_id in
      rw (oid, cid)
        (stored s.customer_id s.order_id j db (shipped_record zero_float now s (lookup k db))
            (shipped_record-IsFiled s (lookup k db) f)
          ∙ at_key (shipped_record zero_float now s) k j db)

as_of :
    {F : Type 0} {c c' o o' : Str}
    → c' ≡ c
    → o' ≡ o
    → (db : Assoc (Order F)) → IsFiled c o (lookup (order_key c o) db)
    → IsFiled c' o' (lookup (order_key c' o') db)
as_of p q db f = subst₂ (λ c o. IsFiled c o (lookup (order_key c o) db)) (sym p) (sym q) f

module _ {F : Type 0} (zero_float : F) where
  -- A placement and a shipment of one order leave the same records in either order, but for the
  -- time of the last update: whatever is known before, cancelled orders included, as long as the
  -- store does not fail and files each record under its own ids.
  pub placed_shipped_commute :
      (t₁ t₂ t₃ t₄ : ℕ) (d : PlacedData F) (s : ShippedData) (db : Assoc (Order F)) (j : Str)
      → is_empty d.order_id ≡ false
      → is_empty d.customer_id ≡ false
      → s.order_id ≡ d.order_id
      → s.customer_id ≡ d.customer_id
      → IsFiled d.customer_id d.order_id (lookup (order_key d.customer_id d.order_id) db)
      → let placed_first = (handle_placed zero_float t₁ no_faults d db).1 in
        let shipped_first = (handle_shipped zero_float t₃ no_faults s db).1 in
        forget zero_float (lookup j (handle_shipped zero_float t₂ no_faults s placed_first).1)
        ≡ forget zero_float (lookup j (handle_placed zero_float t₄ no_faults d shipped_first).1)
  placed_shipped_commute t₁ t₂ t₃ t₄ d s db j oid cid so sc f =
      let kd = order_key d.customer_id d.order_id in
      let ks = order_key s.customer_id s.order_id in
      let m = (handle_placed zero_float t₁ no_faults d db).1 in
      let n = (handle_shipped zero_float t₃ no_faults s db).1 in
      let q : ks ≡ kd = ap₂ order_key sc so in
      let oid' : is_empty s.order_id ≡ false = ap is_empty so ∙ oid in
      let cid' : is_empty s.customer_id ≡ false = ap is_empty sc ∙ cid in
      let fs = as_of sc so db f in
      let first = λ (i : Str). lookup-handle_placed zero_float t₁ d db i oid cid f in
      let first' = λ (i : Str). lookup-handle_shipped zero_float t₃ s db i oid' cid' fs in
      let fm : IsFiled d.customer_id d.order_id (lookup kd m) =
        rw (first kd, str_eq_refl kd) (placed-IsFiled zero_float t₁ d (lookup kd db) f) in
      let fn : IsFiled s.customer_id s.order_id (lookup ks n) =
        rw (first' ks, str_eq_refl ks) (shipped-IsFiled zero_float t₃ s (lookup ks db) fs) in
      ground (
        arith,
        q,
        first j,
        first' j,
        lookup-handle_shipped zero_float t₂ s m j oid' cid' (as_of sc so m fm),
        lookup-handle_placed zero_float t₄ d n j oid cid (as_of (sym sc) (sym so) n fn),
        records_commute zero_float t₁ t₂ t₃ t₄ d s (lookup j db) (sym so) (sym sc),
      )
