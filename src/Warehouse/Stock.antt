-- ===== src/Warehouse/Stock.antt =====
-- internal/warehouse/inventory.go: the stock counters, and `reserveStock` with its version checks.
pub mod Units
use quorum_market.Common.{
  ℕ, zero, suc, ◌+◌, ◌-◌, ◌%◌, ◌^◌, Bool, true, false, not, ◌||◌, Option, none, some, List, [], ◌∷◌,
  ltb, take, ◌==◌, if◌then◌else◌, Str, Assoc, lookup, insert,
}
use quorum_market.Warehouse.Items.{Lines}

pub record StockRecord : Type 0 where
  pub quantity : ℕ  -- int64
  pub version : ℕ  -- uint64

abbrev pub Stock : Type 0
Stock = Assoc StockRecord

-- The record of a product: `initial` units where there is none yet.
abbrev pub found_or_new : ℕ → Option StockRecord → StockRecord
found_or_new initial none = record { quantity = initial; version = 0 }
found_or_new initial (some r) = r

abbrev pub stock_of : ℕ → Str → Stock → StockRecord
stock_of initial id stock = found_or_new initial (lookup id stock)

-- `counter`: the map once it has a record of the product.
unfoldable pub counter : ℕ → Str → Stock → Stock
counter initial id stock = insert id (stock_of initial id stock) stock

unfoldable pub counters : ℕ → Lines → Stock → Stock
unfolding counter
counters initial [] stock = stock
counters initial ((id, q) ∷ ls) stock = counters initial ls (counter initial id stock)

-- Why a reservation fails: an API error, or `InsufficientStockError`.
pub data Failure : Type 0 where
  api : ℕ → Failure
  insufficient : Str → ℕ → ℕ → Failure

-- The loop that looks for a product with too few units.
unfoldable pub shortage : ℕ → Lines → Stock → Option Failure
shortage initial [] stock = none
shortage initial ((id, q) ∷ ls) stock =
    let available = (stock_of initial id stock).quantity in
    let rest = shortage initial ls stock in
    if ltb available q then some (insufficient id q available) else rest

abbrev pub next_version : ℕ → ℕ
next_version v = (v + 1) % 2 ^ 64

-- The loop that takes the units. (`shortage` has found enough of each.)
unfoldable pub deduct : ℕ → Lines → Stock → Stock
deduct initial [] stock = stock
deduct initial ((id, q) ∷ ls) stock =
    let r = stock_of initial id stock in
    deduct initial ls
      (insert id (record { quantity = r.quantity - q; version = next_version r.version }) stock)

-- `restore`
unfoldable pub restore : ℕ → Lines → Stock → Stock
restore initial [] stock = stock
restore initial ((id, q) ∷ ls) stock =
    let r = stock_of initial id stock in
    restore initial ls
      (insert id (record { quantity = r.quantity + q; version = next_version r.version }) stock)

-- The loop that compares the versions read before the locks were taken.
unfoldable pub conflict : ℕ → Lines → List ℕ → Stock → Bool
conflict initial [] versions stock = false
conflict initial ((id, q) ∷ ls) [] stock = false
conflict initial ((id, q) ∷ ls) (v ∷ vs) stock =
    not ((stock_of initial id stock).version == v) || conflict initial ls vs stock

-- The part of a round that runs under all the locks.
unfoldable pub locked_round : ℕ → Lines → Stock → Option Failure → Option Failure × Stock
locked_round initial ls stock (some f) = (some f, stock)
locked_round initial ls stock none = (none, deduct initial ls stock)

-- One round: the versions that it read one by one, and what other goroutines had made of the stock
-- by the time it held every lock.
pub record Round : Type 0 where
  pub versions : List ℕ
  pub meanwhile : Stock → Stock

abbrev pub max_cas_attempts : ℕ
max_cas_attempts = 1000

-- The loop of `reserveStock`: one round after another, until one finds no conflict.
unfoldable pub reserve_rounds : ℕ → Lines → List Round → Stock → Option Failure × Stock
unfolding shortage conflict locked_round deduct
reserve_rounds initial ls [] stock = (some (api 503), stock)
reserve_rounds initial ls (r ∷ rs) stock =
    let stock' = r.meanwhile stock in
    let next = reserve_rounds initial ls rs stock' in
    if conflict initial ls r.versions stock'
    then next
    else locked_round initial ls stock' (shortage initial ls stock')

-- `reserveStock`; `rounds` has a round for every attempt that the loop makes.
unfoldable pub reserve_stock : ℕ → Lines → List Round → Stock → Option Failure × Stock
unfolding counters reserve_rounds
reserve_stock initial ls rounds stock =
    reserve_rounds initial ls (take max_cas_attempts rounds) (counters initial ls stock)
