-- ===== src/Warehouse/Stock/Units.antt =====
-- How many units of a product the stock operations take and give back.
use quorum_market.Common.{
  ℕ, ◌+◌, ◌-◌, ◌≤◌, ◌≡◌, refl, inl, inr, none, some, [], ◌∷◌, arith, if◌then◌else◌, Option-cases,
  Str, str_eq, str_eq_iff, lookup, insert, lookup-insert, IsDistinct, AllPairs,
}
use quorum_market.Warehouse.Items.{Lines}
use quorum_market.Warehouse.Items.Merged.{units}
use quorum_market.Warehouse.Stock.{
  StockRecord, Stock, stock_of, counter, counters, shortage, deduct, restore, locked_round,
  next_version,
}

-- The units of a product in stock.
abbrev pub available : ℕ → Str → Stock → ℕ
available initial p stock = (stock_of initial p stock).quantity

available-insert :
    (initial : ℕ) (id p : Str) (r : StockRecord) (stock : Stock)
    → available initial p (insert id r stock)
      ≡ (if str_eq id p then r.quantity else available initial p stock)
available-insert initial id p r stock = ground (arith, lookup-insert id p r stock)

-- Making a record changes no count.
pub available-counters :
    (initial : ℕ) (p : Str) (ls : Lines) (stock : Stock)
    → available initial p (counters initial ls stock) ≡ available initial p stock
unfolding counters counter
available-counters initial p [] stock = refl
available-counters initial p ((id, q) ∷ ls) stock = ground (
  arith,
  available-counters initial p ls (counter initial id stock),
  available-insert initial id p (stock_of initial id stock) stock,
  str_eq_iff id p,
)

pub available-restore :
    (initial : ℕ) (p : Str) (ls : Lines) (stock : Stock)
    → available initial p (restore initial ls stock) ≡ available initial p stock + units p ls
unfolding restore
available-restore initial p [] stock = omega arith
available-restore initial p ((id, q) ∷ ls) stock =
    let r = stock_of initial id stock in
    let r' : StockRecord = record { quantity = r.quantity + q; version = next_version r.version } in
    ground (
      arith,
      available-restore initial p ls (insert id r' stock),
      available-insert initial id p r' stock,
      str_eq_iff id p,
    )

-- Every line can be met.
abbrev pub InStock : ℕ → Stock → Str → ℕ → Type 0
InStock initial stock id q = q ≤ available initial id stock

InStock-tail :
    (initial : ℕ) (id : Str) (r : StockRecord) (ls : Lines) (stock : Stock)
    → lookup id ls ≡ none
    → AllPairs (InStock initial stock) ls
    → AllPairs (InStock initial (insert id r stock)) ls
unfolding lookup
InStock-tail initial id r [] stock h a = tt
InStock-tail initial id r ((j, q) ∷ ls) stock h a = (
  ground (arith, available-insert initial id j r stock, str_eq_iff id j, str_eq_iff j id),
  InStock-tail initial id r ls stock (ground (arith, str_eq_iff j id)) a.1,
)

pub available-deduct :
    (initial : ℕ) (p : Str) (ls : Lines) (stock : Stock)
    → IsDistinct ls
    → AllPairs (InStock initial stock) ls
    → available initial p (deduct initial ls stock) + units p ls ≡ available initial p stock
unfolding deduct
available-deduct initial p [] stock d a = omega arith
available-deduct initial p ((id, q) ∷ ls) stock d a =
    let r = stock_of initial id stock in
    let r' : StockRecord = record { quantity = r.quantity - q; version = next_version r.version } in
    ground (
      arith,
      available-deduct initial p ls (insert id r' stock) d.1
          (InStock-tail initial id r' ls stock d.0 a.1),
      available-insert initial id p r' stock,
      str_eq_iff id p,
      a.0,
    )

shortage-InStock :
    (initial : ℕ) (ls : Lines) (stock : Stock)
    → shortage initial ls stock ≡ none
    → AllPairs (InStock initial stock) ls
unfolding shortage
shortage-InStock initial [] stock h = tt
shortage-InStock initial ((id, q) ∷ ls) stock h =
    (ground arith, shortage-InStock initial ls stock (ground arith))

-- A round that grants the lines takes exactly their units; one that refuses them takes nothing.
pub locked_round-units :
    (initial : ℕ) (p : Str) (ls : Lines) (stock : Stock)
    → IsDistinct ls
    → let (refused, stock') = locked_round initial ls stock (shortage initial ls stock) in
      available initial p stock' + (elim refused [ none ↦ units p ls | some f ↦ 0 ])
      ≡ available initial p stock
unfolding locked_round
locked_round-units initial p ls stock d = elim (Option-cases (shortage initial ls stock)) [
  | inl enough ↦
      rw enough (available-deduct initial p ls stock d (shortage-InStock initial ls stock enough))
  | inr (f, short) ↦ rw short (omega arith)
]
