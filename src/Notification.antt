-- ===== src/Notification.antt =====
-- internal/notification: the messages that domain events become, and a customer's inbox in Redis. JSON,
-- the formatting of numbers and Redis are parameters.
pub mod Inbox
mod Tests
use quorum_market.Common.{
  zero, suc, ℕ, ◌+◌, ◌-◌, ◌≡◌, ◌≤◌, ◌<◌, Bool, true, false, Option, none, some, List, [], ◌∷◌, ◌++◌,
  ℤ, pos, pos_part, leb_ℤ, ltb_ℤ, leb, if◌then◌else◌, length, take, Str, bytes, is_empty, str_eq,
  Assoc, ◌||◌,
}
use quorum_market.Warehouse.Items.{Item}
use quorum_market.Httpx.Errors.{Error, errorf, wrap, plain, Result, ok, err}
use quorum_market.Rmq.Consumer.{Verdict, handled, unprocessable, failing}
use quorum_market.Order.{PlacedData, ShippedData}
use quorum_market.Gateway.{customer_id_header, header_of}
use quorum_market.Events.{
  Envelope, Handler, decode_data, order_placed, order_shipped, order_cancelled,
}

-- `Notification`
pub record Message : Type 0 where
  pub id : Str
  pub customer_id : Str
  pub order_id : Str
  pub channel : Str
  pub subject : Str
  pub body : Str
  pub event_type : Str
  pub created_at : ℕ

-- `events.OrderCancelledData`
pub record CancelledData : Type 0 where
  pub order_id : Str
  pub customer_id : Str
  pub reason : Str
  pub cancelled_at : ℕ

-- JSON of the payloads and of a notification, and how numbers are printed.
pub record Format (F : Type 0) : Type 0 where
  pub parse_placed : Str → Option (PlacedData F)
  pub parse_shipped : Str → Option ShippedData
  pub parse_cancelled : Str → Option CancelledData
  pub print_count : ℕ → Str
  pub print_price : F → Str
  pub encode : Message → Result Str
  pub decode : Str → Option Message

-- Lists in Redis, as they are at a time: `LPUSH`, `LTRIM` to the first elements, `EXPIRE`, and what a
-- key holds.
pub record Lists (R : Type 0) : Type 0 where
  pub push : ℕ → Str → Str → R → R
  pub trim : ℕ → Str → ℕ → R → R
  pub expire : ℕ → Str → ℕ → R → R
  pub held : ℕ → Str → R → List Str

pub record ListsLaws {R : Type 0} (lists : Lists R) : Type 0 where
  pub held-push :
      (now : ℕ) (k v : Str) (r : R)
      → lists.held now k (lists.push now k v r) ≡ v ∷ lists.held now k r
  pub held-trim :
      (now : ℕ) (k : Str) (n : ℕ) (r : R)
      → lists.held now k (lists.trim now k n r) ≡ take n (lists.held now k r)
  pub held-expire :
      (now at : ℕ) (k : Str) (ttl : ℕ) (r : R)
      → now ≤ at
      → at < now + ttl
      → lists.held at k (lists.expire now k ttl r) ≡ lists.held now k r

pub record Service : Type 0 where
  pub inbox_size : ℕ
  pub inbox_ttl : ℕ

-- `NewService`
unfoldable pub new_service : ℤ → ℤ → Service
new_service size ttl = record {
  inbox_size = if leb_ℤ size (pos 0) then 50 else pos_part size;
  inbox_ttl = if leb_ℤ ttl (pos 0) then 2_592_000_000_000_000 else pos_part ttl;
}

-- `orderID[n:]`
drop : ℕ → Str → Str
drop n [] = []
drop zero (c ∷ s) = c ∷ s
drop (suc n) (c ∷ s) = drop n s

unfoldable pub short : Str → Str
unfolding drop
short order_id = if leb (length order_id) 12 then order_id else drop (length order_id - 12) order_id

module _ {F : Type 0} (format : Format F) where
  abbrev base : Envelope → Message
  base e = record {
    id = e.id;
    customer_id = e.customer_id;
    order_id = e.order_id;
    channel = bytes "email";
    subject = [];
    body = [];
    event_type = e.event_type;
    created_at = e.occurred_at;
  }

  render_placed : Envelope → Result (PlacedData F) → Option Message
  unfolding short
  render_placed e (err x) = none
  render_placed e (ok d) = some (record (base e) {
    subject = bytes "Order " ++ (short d.order_id ++ bytes " confirmed");
    body =
        bytes "Thanks for your order. "
        ++ (format.print_count (length d.items)
            ++ (bytes " item(s), "
                ++ (format.print_price d.total_price
                    ++ bytes " total. We will let you know when it ships.")));
  })

  render_shipped : Envelope → Result ShippedData → Option Message
  unfolding short
  render_shipped e (err x) = none
  render_shipped e (ok d) = some (record (base e) {
    subject = bytes "Order " ++ (short d.order_id ++ bytes " is on its way");
    body = format.print_count (length d.items) ++ bytes " item(s) have left the warehouse.";
  })

  render_cancelled : Envelope → Result CancelledData → Option Message
  unfolding short
  render_cancelled e (err x) = none
  render_cancelled e (ok d) =
      let reason = if is_empty d.reason then bytes "no reason given" else d.reason in
      some (record (base e) {
        subject = bytes "Order " ++ (short d.order_id ++ bytes " cancelled");
        body =
            bytes "Your order has been cancelled ("
            ++ (reason ++ bytes "). Any hold on your card will be released.");
      })

  unfoldable pub render : Envelope → Option Message
  unfolding render_placed render_shipped render_cancelled
  render e =
      if str_eq e.event_type order_placed
      then render_placed e (decode_data format.parse_placed e)
      else if str_eq e.event_type order_shipped
      then render_shipped e (decode_data format.parse_shipped e)
      else if str_eq e.event_type order_cancelled
      then render_cancelled e (decode_data format.parse_cancelled e)
      else none

abbrev pub inbox_key : Str → Str
inbox_key customer_id = bytes "notifications:" ++ customer_id

-- The limit that `Inbox` uses.
abbrev pub shown_limit : Service → ℤ → ℕ
shown_limit s limit =
    if leb_ℤ limit (pos 0) || ltb_ℤ (pos s.inbox_size) limit then s.inbox_size else pos_part limit

-- The time, and how the pipeline ends: done, with an error before it is applied, or with one after.
pub data Outcome : Type 0 where
  done lost late : Outcome

module _ {F R : Type 0} (format : Format F) (lists : Lists R) (s : Service) where
  -- The pipeline of `deliver`.
  unfoldable pub pipeline : ℕ → Str → Str → R → R
  pipeline now key raw r =
      lists.expire now key s.inbox_ttl (lists.trim now key s.inbox_size (lists.push now key raw r))

  executed : Outcome → R → R → Verdict × R
  executed done r r' = (handled, r')
  executed lost r r' = (failing, r)
  executed late r r' = (failing, r')

  push_encoded : ℕ → Outcome → Str → Result Str → R → Verdict × R
  unfolding executed pipeline
  push_encoded now outcome key (err e) r = (unprocessable, r)
  push_encoded now outcome key (ok raw) r = executed outcome r (pipeline now key raw r)

  unfoldable pub deliver : ℕ → Outcome → Message → R → Verdict × R
  unfolding push_encoded
  deliver now outcome n r =
      if is_empty n.customer_id
      then (unprocessable, r)
      else push_encoded now outcome (inbox_key n.customer_id) (format.encode n) r

  handle_rendered : ℕ → Outcome → Option Message → R → Verdict × R
  unfolding deliver
  handle_rendered now outcome none r = (handled, r)
  handle_rendered now outcome (some n) r = deliver now outcome n r

  -- `Handle`
  unfoldable pub handle : ℕ → Outcome → Envelope → R → Verdict × R
  unfolding handle_rendered
  handle now outcome e r = handle_rendered now outcome (render format e) r

  -- The rows of an inbox, without those that do not parse.
  unfoldable pub rows : List Str → List Message
  rows [] = []
  rows (raw ∷ raws) =
      let rest = rows raws in elim (format.decode raw) [ none ↦ rest | some n ↦ n ∷ rest ]

  -- `Inbox`; `failure` is the error of Redis
  unfoldable pub inbox : ℕ → Option Error → Str → ℤ → R → Result (List Message)
  unfolding rows
  inbox now failure customer_id limit r =
      if is_empty customer_id then err (errorf 400) else elim failure [
        | some e ↦ err (wrap 503 e)
        | none ↦ ok (rows (take (shown_limit s limit) (lists.held now (inbox_key customer_id) r)))
      ]

  -- `handleInbox` of server.go, of the number in the query
  unfoldable pub handle_inbox : ℕ → Option Error → Assoc Str → ℤ → R → Result (List Message)
  unfolding inbox
  handle_inbox now failure headers limit r =
      let customer_id = header_of customer_id_header headers in
      if is_empty customer_id then err (errorf 401) else inbox now failure customer_id limit r
