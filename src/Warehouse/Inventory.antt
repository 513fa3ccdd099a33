-- ===== src/Warehouse/Inventory.antt =====
-- internal/warehouse/inventory.go: reservations and request receipts. Where a method holds a lock
-- only for a part of its work, that part is a function of its own. Fresh ids, the time and the
-- digest (SHA-256 of the JSON of the normalized lines) are arguments.
pub mod Settling
pub mod Holdings
pub mod Conservation
pub mod Receipts
pub mod Lifecycle
use quorum_market.Common.{
  ℕ, zero, suc, ◌+◌, ◌%◌, ◌^◌, Bool, true, false, not, ◌||◌, ◌&&◌, Option, none, some, List, [],
  ◌∷◌, ◌++◌, ℤ, pos, pos_part, ltb_ℤ, ltb, leb, ◌==◌, if◌then◌else◌, length, Str, bytes, is_empty,
  str_eq, Assoc, lookup, insert,
}
use quorum_market.Httpx.Errors.{Error, status_of, Result, ok, err}
use quorum_market.Warehouse.Items.{Item, Lines, normalize, same_items}
use quorum_market.Warehouse.Stock.{Stock, stock_of, Failure, api, restore, Round, reserve_stock}

pub data ReservationState : Type 0 where
  reserved committed released : ReservationState

pub record Reservation : Type 0 where
  pub id : Str
  pub request_id : Str
  pub state : ReservationState
  pub items : Lines
  pub created_at : ℕ
  pub expires_at : ℕ

-- `failure` and `reservation_id` are read only once `done`.
pub record Receipt : Type 0 where
  pub digest : Str
  pub done : Bool
  pub reservation_id : Str
  pub failure : Option Failure

pub record Inventory : Type 0 where
  pub initial : ℕ
  pub ttl : ℕ
  pub stock : Stock
  pub reservations : Assoc Reservation
  pub receipts : Assoc Receipt
  pub reserved_count : ℕ  -- the counters are uint64
  pub rejected_count : ℕ
  pub released_count : ℕ
  pub expired_count : ℕ
  pub shipped_count : ℕ
  pub late_ships : ℕ

abbrev pub add_u64 : ℕ → ℕ → ℕ
add_u64 a b = (a + b) % 2 ^ 64

unfoldable pub new_inventory : ℤ → ℤ → Inventory
new_inventory initial ttl = record {
  initial = pos_part initial;
  ttl = if ltb_ℤ (pos 0) ttl then pos_part ttl else 30000000000;
  stock = [];
  reservations = [];
  receipts = [];
  reserved_count = 0;
  rejected_count = 0;
  released_count = 0;
  expired_count = 0;
  shipped_count = 0;
  late_ships = 0;
}

-- A character that a request id may hold.
unfoldable pub is_id_char : ℕ → Bool
is_id_char ch =
    (leb b'a' ch && leb ch b'z')
    || ((leb b'A' ch && leb ch b'Z')
        || ((leb b'0' ch && leb ch b'9')
            || (ch == b'-' || (ch == b'_' || (ch == b':' || ch == b'.')))))

all_id_chars : Str → Bool
all_id_chars [] = true
all_id_chars (c ∷ s) = is_id_char c && all_id_chars s

unfoldable pub valid_request_id : Str → Bool
unfolding is_id_char all_id_chars
valid_request_id id = not (is_empty id || ltb 128 (length id)) && all_id_chars id

-- What a reservation request ends with; `waiting` is a request that blocks on the receipt of an
-- equal one which has not ended.
pub data Outcome : Type 0 where
  granted : Reservation → Outcome
  failed : Failure → Outcome
  waiting : Outcome

-- What the first locked part of `ReserveWithRequestID` decides.
pub data Admission : Type 0 where
  answered : Outcome → Admission
  admitted : Lines → Admission

granted_or_nil : Option Reservation → Outcome
granted_or_nil (some r) = granted r
granted_or_nil none = failed (api 500)

-- The answer of a receipt to an equal request. (A receipt that is done names a reservation.)
replay : Inventory → Receipt → Outcome
unfolding granted_or_nil
replay inv r = if not r.done then waiting else elim r.failure [
  | some f ↦ failed f
  | none ↦ granted_or_nil (lookup r.reservation_id inv.reservations)
]

-- The receipt of a request that has not ended.
abbrev pub blank_receipt : Str → Receipt
blank_receipt digest = record { digest = digest; done = false; reservation_id = []; failure = none }

admit : Str → Str → Lines → Inventory → Option Receipt → Admission × Inventory
unfolding replay
admit request_id digest ls inv none =
    (admitted ls, record inv { receipts = insert request_id (blank_receipt digest) inv.receipts })
admit request_id digest ls inv (some r) =
    (answered (if str_eq r.digest digest then replay inv r else failed (api 409)), inv)

-- The last locked part of `ReserveWithRequestID`, once `reserveStock` has ended.
unfoldable pub conclude :
    Str → Str → Lines → Str → ℕ → Option Failure → Inventory → Outcome × Inventory
conclude request_id digest ls id now (some f) inv = (
  failed f,
  record inv {
    receipts =
        insert request_id (record (blank_receipt digest) { done = true; failure = some f })
          inv.receipts;
    rejected_count = add_u64 inv.rejected_count 1;
  },
)
conclude request_id digest ls id now none inv =
    let r : Reservation = record {
      id = id;
      request_id = request_id;
      state = reserved;
      items = ls;
      created_at = now;
      expires_at = now + inv.ttl;
    } in
    (
      granted r,
      record inv {
        receipts =
            insert request_id (record (blank_receipt digest) { done = true; reservation_id = id })
              inv.receipts;
        reservations = insert id r inv.reservations;
        reserved_count = add_u64 inv.reserved_count 1;
      },
    )

module _ (digest : Lines → Str) where
  -- The first locked part of `ReserveWithRequestID`, behind its validation.
  unfoldable pub open_request : Str → List Item → Inventory → Admission × Inventory
  unfolding valid_request_id admit
  open_request request_id items inv =
      if not (valid_request_id request_id)
      then (answered (failed (api 400)), inv)
      else elim (normalize items) [
        | err e ↦ (answered (failed (api (status_of (some e)))), inv)
        | ok ls ↦ admit request_id (digest ls) ls inv (lookup request_id inv.receipts)
      ]

  -- The work of an admitted request: `id` is its fresh reservation id.
  serve_admitted : Str → Str → ℕ → List Round → Admission × Inventory → Outcome × Inventory
  unfolding conclude
  serve_admitted request_id id now rounds (answered o, inv) = (o, inv)
  serve_admitted request_id id now rounds (admitted ls, inv) =
      let (refused, stock') = reserve_stock inv.initial ls rounds inv.stock in
      conclude request_id (digest ls) ls id now refused (record inv { stock = stock' })

  -- `ReserveWithRequestID`, where other goroutines touch only the stock until it ends.
  unfoldable pub reserve_with_request_id :
      Str → List Item → Str → ℕ → List Round → Inventory → Outcome × Inventory
  unfolding open_request serve_admitted
  reserve_with_request_id request_id items id now rounds inv =
      serve_admitted request_id id now rounds (open_request request_id items inv)

abbrev pub is_reserved : ReservationState → Bool
is_reserved reserved = true
is_reserved _ = false

abbrev pub is_live : ReservationState → Bool
is_live released = false
is_live _ = true

-- `restore(items)`, under the locks of the products.
unfoldable pub give_back : Lines → Inventory → Inventory
give_back ls inv = record inv { stock = restore inv.initial ls inv.stock }
