-- ===== src/Events.antt =====
-- internal/events/events.go: the envelope of a domain event, how it is published, and how a subscriber
-- dispatches it. JSON and the topic exchange are parameters; `W` is the state that handlers work on.
pub mod Dispatch
pub mod Toy
mod Tests
use quorum_market.Common.{
  ℕ, ◌≡◌, Bool, Option, none, some, List, [], ◌∷◌, if◌then◌else◌, Str, bytes, is_empty, str_lt,
  Assoc, lookup,
}
use quorum_market.Httpx.Errors.{Error, plain, Result, ok, err}
use quorum_market.Rmq.Consumer.{Verdict, handled, unprocessable}

abbrev pub order_placed : Str
order_placed = bytes "order.placed"

abbrev pub order_shipped : Str
order_shipped = bytes "order.shipped"

abbrev pub order_cancelled : Str
order_cancelled = bytes "order.cancelled"

-- The type is a routing key.
pub record Envelope : Type 0 where
  pub id : Str
  pub event_type : Str
  pub occurred_at : ℕ
  pub correlation_id : Str
  pub order_id : Str
  pub customer_id : Str
  pub payload : Str

-- JSON of an envelope; `decode` answers `none` for a body that does not parse.
pub record Codec : Type 0 where
  pub encode : Envelope → Result Str
  pub decode : Str → Option Envelope

pub record CodecLaws (codec : Codec) : Type 0 where
  pub decode-encode : (e : Envelope) (v : Str) → codec.encode e ≡ ok v → codec.decode v ≡ some e

-- `New`, of the payload as JSON encodes it, or its error. `request_id` is that of the context, empty
-- if it has none.
unfoldable pub new_envelope : Str → ℕ → Str → Str → Str → Str → Result Str → Result Envelope
new_envelope id now request_id event_type order_id customer_id (err e) = err plain
new_envelope id now request_id event_type order_id customer_id (ok payload) = ok (record {
  id = id;
  event_type = event_type;
  occurred_at = now;
  correlation_id = request_id;
  order_id = order_id;
  customer_id = customer_id;
  payload = payload;
})

-- `Decode`, where `parse` is JSON of the payload
unfoldable pub decode_data : {A : Type 0} → (Str → Option A) → Envelope → Result A
decode_data parse e =
    if is_empty e.payload
    then err plain
    else elim (parse e.payload) [ none ↦ err plain | some a ↦ ok a ]

-- A message on the topic exchange.
pub record Message : Type 0 where
  pub routing_key : Str
  pub body : Str

-- What `PublishKey` is asked for, if anything, or the error.
published : Str → Result Str → Result (Option Message)
published key (err e) = err plain
published key (ok body) = ok (some (record { routing_key = key; body = body }))

-- `Publish` up to `PublishKey`
unfoldable pub publish : Codec → Bool → Envelope → Result (Option Message)
unfolding published
publish codec has_exchange e =
    if has_exchange then published e.event_type (codec.encode e) else ok none

-- `Emit` up to `PublishKey`
unfoldable pub emit :
    Codec → Bool → Str → ℕ → Str → Str → Str → Str → Result Str → Result (Option Message)
unfolding publish
emit codec has_exchange id now request_id event_type order_id customer_id payload =
    elim (new_envelope id now request_id event_type order_id customer_id payload) [
      | err e ↦ err e
      | ok e ↦ publish codec has_exchange e
    ]

-- A handler is given the request id of its context, the envelope and the state.
abbrev pub Handler : Type 0 → Type 0
Handler W = Str → Envelope → W → Verdict × W

insert_sorted : Str → List Str → List Str
insert_sorted k [] = k ∷ []
insert_sorted k (j ∷ ks) =
    let later = j ∷ insert_sorted k ks in if str_lt j k then later else k ∷ (j ∷ ks)

module _ {W : Type 0} where
  deliver : Handler W → Option Envelope → W → Verdict × W
  deliver handler none w = (unprocessable, w)
  deliver handler (some e) w =
      if is_empty e.event_type then (unprocessable, w) else handler e.correlation_id e w

  -- `Subscribe`; a context without a request id is one whose id is empty.
  unfoldable pub subscribe : Codec → Handler W → Str → W → Verdict × W
  unfolding deliver
  subscribe codec handler body w = deliver handler (codec.decode body) w

  dispatch : Option (Handler W) → Handler W
  dispatch none request_id e w = (handled, w)
  dispatch (some handler) request_id e w = handler request_id e w

  -- `Router.Handle`
  unfoldable pub route : Assoc (Handler W) → Handler W
  unfolding dispatch
  route router request_id e w = dispatch (lookup e.event_type router) request_id e w

  -- `Patterns`: the routing keys in ascending order.
  unfoldable pub patterns : Assoc (Handler W) → List Str
  unfolding insert_sorted
  patterns [] = []
  patterns ((event_type, handler) ∷ router) = insert_sorted event_type (patterns router)
