-- ===== src/Events/Tests.antt =====
-- internal/events/events.go on concrete inputs; the handlers keep what they are given.
use quorum_market.Common.{
  ◌≡◌, refl, str_lt, false, List, [], ◌∷◌, ◌++◌, Str, bytes, is_empty, str_eq, Assoc, lookup,
}
use quorum_market.Rmq.Consumer.{handled, Delivery, Consumer, acked}
use quorum_market.Rmq.Consumer.Deliveries.{serve}
use quorum_market.Events.{
  Envelope, Message, Handler, emit, new_envelope, publish, published, subscribe, deliver, dispatch,
  route, order_placed, order_shipped, order_cancelled, patterns, insert_sorted,
}
use quorum_market.Events.Toy.{toy_codec, toy_codec_laws}
use quorum_market.Events.Dispatch.{emitted_reaches_handler}

abbrev keep_event : Handler (List (Str × Envelope))
keep_event request_id e w = (handled, (request_id, e) ∷ w)

abbrev router : Assoc (Handler (List (Str × Envelope)))
router = (order_shipped, keep_event) ∷ ((order_placed, keep_event) ∷ [])

patterns_sorted : patterns router ≡ (order_placed ∷ (order_shipped ∷ []))
unfolding patterns insert_sorted str_lt
patterns_sorted = refl

abbrev placed : Envelope
placed = record {
  id = bytes "e";
  event_type = order_placed;
  occurred_at = 7;
  correlation_id = bytes "r";
  order_id = bytes "o";
  customer_id = bytes "c";
  payload = bytes "{}";
}

abbrev message : Message
message = record {
  routing_key = order_placed;
  body =
      7
      ∷ (1
          ∷ (bytes "e"
              ++ (12
                  ∷ (order_placed
                      ++ (1 ∷ (bytes "r" ++ (1 ∷ (bytes "o" ++ (1 ∷ bytes "c{}")))))))));
}

emitted_reaches_handler_example :
    (message.routing_key ≡ order_placed)
    × (subscribe toy_codec (route router) message.body [] ≡ keep_event (bytes "r") placed [])
unfolding emit new_envelope publish published is_empty lookup str_eq
emitted_reaches_handler_example =
    emitted_reaches_handler toy_codec toy_codec_laws router (bytes "e") (bytes "r") order_placed
      (bytes "o") (bytes "c") (bytes "{}") 7 message keep_event [] refl refl refl

abbrev consumer : Consumer
consumer = record {
  queue = [];
  workers = 1;
  prefetch = 1;
  processed = 0;
  dead_letters = 0;
  requeues = 0;
}

-- A cancellation, which the router does not know.
abbrev delivery : Delivery
delivery = record {
  body =
      7
      ∷ (1
          ∷ (bytes "e"
              ++ (15
                  ∷ (order_cancelled
                      ++ (1 ∷ (bytes "r" ++ (1 ∷ (bytes "o" ++ (1 ∷ bytes "c{}")))))))));
  number = 1;
  is_redelivered = false;
}

-- It is acknowledged.
cancelled_unrouted : (serve (subscribe toy_codec (route router)) delivery [] consumer).0 ≡ acked
unfolding serve subscribe route lookup str_eq is_empty deliver dispatch
cancelled_unrouted = refl
