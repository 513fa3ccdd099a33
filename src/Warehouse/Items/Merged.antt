-- ===== src/Warehouse/Items/Merged.antt =====
-- `normalize` of internal/warehouse/inventory.go against a count of the units that a request
-- asks for.
use quorum_market.Common.{
  ℕ, ◌+◌, ◌-◌, ◌≤◌, ◌<◌, ◌≡◌, refl, ◌∙◌, inl, inr, Bool, true, false, ◌||◌, none, some, List, [],
  ◌∷◌, arith, pos, pos_part, leb_ℤ, ltb, if◌then◌else◌, Bool-cases, Str, is_empty, str_lt, str_eq,
  str_eq_iff, lookup, insert, lookup-insert, IsDistinct, insert-IsDistinct, AllPairs,
  insert-AllPairs, All,
}
use quorum_market.Httpx.Errors.{Error, errorf, Result, ok, err}
use quorum_market.Warehouse.Items.{
  Item, Lines, max_int, total_of, totals_loop, insert_line, sort_lines, merged, normalize,
}

-- The units of a product in a list of items, as requested.
abbrev pub requested : Str → List Item → ℕ
requested p [] = 0
requested p (item ∷ items) =
    let rest = requested p items in
    if str_eq item.product_id p then pos_part item.quantity + rest else rest

-- The units of a product in normalized lines.
abbrev pub units : Str → Lines → ℕ
units p [] = 0
units p ((j, q) ∷ ls) = let rest = units p ls in if str_eq j p then q + rest else rest

abbrev pub OnOk : (Lines → Type 0) → Result Lines → Type 0
OnOk P (ok ls) = P ls
OnOk P (err e) = Unit

OnOk-if :
    (P : Lines → Type 0) (b : Bool) (e : Error) (x : Result Lines)
    → (b ≡ false → OnOk P x)
    → OnOk P (if b then err e else x)
OnOk-if P true e x h = tt
OnOk-if P false e x h = h refl

units_absent : (p : Str) (ls : Lines) → lookup p ls ≡ none → units p ls ≡ 0
unfolding lookup
units_absent p [] h = refl
units_absent p ((j, q) ∷ ls) h = ground (arith, units_absent p ls)

units-total_of : (p : Str) (ls : Lines) → IsDistinct ls → units p ls ≡ total_of p ls
unfolding lookup
units-total_of p [] d = refl
units-total_of p ((j, q) ∷ ls) d =
    ground (arith, units-total_of p ls, units_absent p ls, str_eq_iff j p)

abbrev pub IsQuantity : Str → ℕ → Type 0
IsQuantity p q = (0 < q) × (q ≤ max_int)

-- Lines that each hold a product once, in at least one unit, and in no more than an int can count.
pub record IsOrder (ls : Lines) : Type 0 where
  pub distinct : IsDistinct ls
  pub positive : AllPairs IsQuantity ls

-- What the loop adds to the totals that it starts from.
abbrev Adds : List Item → Lines → Lines → Type 0
Adds items totals ls =
    IsOrder ls × ((p : Str) → total_of p ls ≡ total_of p totals + requested p items)

total_of-insert :
    (id p : Str) (q : ℕ) (ls : Lines)
    → total_of p (insert id q ls) ≡ (if str_eq id p then q else total_of p ls)
total_of-insert id p q ls = ground (arith, lookup-insert id p q ls)

-- The quantities of a request are ints.
abbrev pub IsInt : Item → Type 0
IsInt item = pos_part item.quantity ≤ max_int

quantity_fits :
    (item : Item) (total : ℕ)
    → is_empty item.product_id || leb_ℤ item.quantity (pos 0) ≡ false
    → ltb (max_int - pos_part item.quantity) total ≡ false
    → IsInt item
    → IsQuantity item.product_id (total + pos_part item.quantity)
quantity_fits item total fine room int = ground arith

OnOk-map :
    (P Q : Lines → Type 0) (r : Result Lines) → ((ls : Lines) → P ls → Q ls) → OnOk P r → OnOk Q r
OnOk-map P Q (ok ls) f h = f ls h
OnOk-map P Q (err e) f h = tt

Adds-cons :
    (item : Item) (items : List Item) (totals ls : Lines)
    → Adds items
        (insert item.product_id (total_of item.product_id totals + pos_part item.quantity) totals)
        ls
    → Adds (item ∷ items) totals ls
Adds-cons item items totals ls a =
    let id = item.product_id in
    (
      a.0,
      λ p. ground (
        arith,
        a.1 p,
        total_of-insert id p (total_of id totals + pos_part item.quantity) totals,
        str_eq_iff id p,
      ),
    )

totals_loop-Adds :
    (items : List Item) (totals : Lines)
    → All IsInt items
    → IsOrder totals
    → OnOk (Adds items totals) (totals_loop items totals)
unfolding totals_loop
totals_loop-Adds [] totals ints o = (o, λ p. omega arith)
totals_loop-Adds (item ∷ items) totals ints o =
    let id = item.product_id in
    let q = pos_part item.quantity in
    let now = total_of id totals + q in
    let rest = totals_loop items (insert id now totals) in
    let goal = Adds (item ∷ items) totals in
    OnOk-if goal (is_empty id || leb_ℤ item.quantity (pos 0)) (errorf 400)
      (if ltb (max_int - q) (total_of id totals) then err (errorf 400) else rest)
      (λ fine. OnOk-if goal (ltb (max_int - q) (total_of id totals)) (errorf 400) rest (λ room.
        OnOk-map (Adds items (insert id now totals)) goal rest (Adds-cons item items totals) (
          totals_loop-Adds items (insert id now totals) ints.1 (record {
            distinct = insert-IsDistinct id now totals o.distinct;
            positive =
                insert-AllPairs IsQuantity id now totals
                  (quantity_fits item (total_of id totals) fine room ints.0) o.positive;
          }))))

units-insert_line :
    (p id : Str) (q : ℕ) (ls : Lines)
    → units p (insert_line id q ls) ≡ (if str_eq id p then q + units p ls else units p ls)
unfolding insert_line
units-insert_line p id q [] = refl
units-insert_line p id q ((j, r) ∷ ls) = ground (arith, units-insert_line p id q ls)

units-sort_lines : (p : Str) (ls : Lines) → units p (sort_lines ls) ≡ units p ls
unfolding sort_lines
units-sort_lines p [] = refl
units-sort_lines p ((j, q) ∷ ls) =
    ground (arith, units-insert_line p j q (sort_lines ls), units-sort_lines p ls)

lookup-insert_line :
    (p id : Str) (q : ℕ) (ls : Lines)
    → lookup id ls ≡ none
    → lookup p (insert_line id q ls) ≡ (if str_eq id p then some q else lookup p ls)
unfolding insert_line lookup
lookup-insert_line p id q [] h = refl
lookup-insert_line p id q ((j, r) ∷ ls) h =
    ground (arith, lookup-insert_line p id q ls, str_eq_iff id p, str_eq_iff j p, str_eq_iff j id)

lookup-sort_lines : (p : Str) (ls : Lines) → IsDistinct ls → lookup p (sort_lines ls) ≡ lookup p ls
unfolding sort_lines lookup
lookup-sort_lines p [] d = refl
lookup-sort_lines p ((j, q) ∷ ls) d = ground (
  arith,
  lookup-insert_line p j q (sort_lines ls),
  lookup-sort_lines p ls,
  lookup-sort_lines j ls,
)

insert_line-IsDistinct :
    (id : Str) (q : ℕ) (ls : Lines)
    → lookup id ls ≡ none
    → IsDistinct ls
    → IsDistinct (insert_line id q ls)
unfolding insert_line lookup
insert_line-IsDistinct id q [] h d = (refl, tt)
insert_line-IsDistinct id q ((j, r) ∷ ls) h d = elim (Bool-cases (str_lt j id)) [
  | inl below ↦ rw below (
    ground (arith, lookup-insert_line j id q ls, str_eq_iff j id, str_eq_iff id j),
    insert_line-IsDistinct id q ls (ground arith) d.1,
  )
  | inr here ↦ rw here (h, d)
]

insert_line-AllPairs :
    (id : Str) (q : ℕ) (ls : Lines)
    → IsQuantity id q
    → AllPairs IsQuantity ls
    → AllPairs IsQuantity (insert_line id q ls)
unfolding insert_line
insert_line-AllPairs id q [] p a = (p, tt)
insert_line-AllPairs id q ((j, r) ∷ ls) p a = elim (Bool-cases (str_lt j id)) [
  | inl below ↦ rw below (a.0, insert_line-AllPairs id q ls p a.1)
  | inr here ↦ rw here (p, a)
]

sort_lines-IsOrder : (ls : Lines) → IsOrder ls → IsOrder (sort_lines ls)
unfolding sort_lines
sort_lines-IsOrder [] o = o
sort_lines-IsOrder ((j, q) ∷ ls) o =
    let rest =
      sort_lines-IsOrder ls (record { distinct = o.distinct.1; positive = o.positive.1 }) in
    record {
      distinct =
          insert_line-IsDistinct j q (sort_lines ls)
            (lookup-sort_lines j ls o.distinct.1 ∙ o.distinct.0) rest.distinct;
      positive = insert_line-AllPairs j q (sort_lines ls) o.positive.0 rest.positive;
    }

-- Merged lines hold each product once, in a positive int, and as many units of every product as the
-- request asks for in all its items together.
abbrev pub IsMerged : List Item → Lines → Type 0
IsMerged items ls = IsOrder ls × ((p : Str) → units p ls ≡ requested p items)

merged-IsMerged :
    (items : List Item) (r : Result Lines)
    → OnOk (Adds items []) r
    → OnOk (IsMerged items) (merged r)
unfolding merged lookup
merged-IsMerged items (err e) h = tt
merged-IsMerged items (ok ls) h = (
  sort_lines-IsOrder ls h.0,
  λ p. omega (arith, units-sort_lines p ls, units-total_of p ls h.0.distinct, h.1 p),
)

-- `normalize` refuses a request, or merges it: nothing overflows, no unit is lost or invented, and
-- no product stands twice.
pub normalize-IsMerged :
    (items : List Item) → All IsInt items → OnOk (IsMerged items) (normalize items)
unfolding normalize
normalize-IsMerged [] ints = tt
normalize-IsMerged (item ∷ items) ints =
    merged-IsMerged (item ∷ items) (totals_loop (item ∷ items) [])
      (totals_loop-Adds (item ∷ items) [] ints (record { distinct = tt; positive = tt }))
