-- ===== src/Events/Dispatch.antt =====
-- From the publisher of an event to the handler of a subscriber in internal/events/events.go, and how
-- the consumer settles what a subscriber is sent.
use quorum_market.Common.{
  ℕ, ◌≡◌, refl, Bool, true, false, not, Option, none, some, if◌then◌else◌, Str, is_empty, Assoc,
  lookup, arith, Bool-cases, Option-cases, inl, inr, ap,
}
use quorum_market.Httpx.Errors.{ok, Result-cases}
use quorum_market.Rmq.Consumer.{Delivery, acked, dead_lettered, Consumer, handle, dead_letter}
use quorum_market.Rmq.Consumer.Deliveries.{serve}
use quorum_market.Events.{
  Envelope, Codec, CodecLaws, Message, Handler, new_envelope, publish, published, emit, subscribe,
  deliver, route, dispatch,
}

-- A body is readable if it parses and has a type.
abbrev pub is_readable : Option Envelope → Bool
is_readable none = false
is_readable (some e) = not (is_empty e.event_type)

module _ {W : Type 0} (codec : Codec) (laws : CodecLaws codec) (router : Assoc (Handler W)) where
  -- What `Emit` publishes is routed by the event's type, and a subscriber that binds a handler to this
  -- type gives it the envelope as it was emitted, under the request id of the publisher's context. The
  -- type is not empty, and JSON decodes what it encoded.
  pub emitted_reaches_handler :
      (id request_id event_type order_id customer_id payload : Str) (now : ℕ) (message : Message)
      (handler : Handler W) (w : W)
      → emit codec true id now request_id event_type order_id customer_id (ok payload)
        ≡ ok (some message)
      → is_empty event_type ≡ false
      → lookup event_type router ≡ some handler
      → (message.routing_key ≡ event_type)
        × (subscribe codec (route router) message.body w
            ≡ handler request_id
                (record {
                  id = id;
                  event_type = event_type;
                  occurred_at = now;
                  correlation_id = request_id;
                  order_id = order_id;
                  customer_id = customer_id;
                  payload = payload;
                })
                w)
  unfolding emit new_envelope publish published subscribe deliver route dispatch
  emitted_reaches_handler id request_id event_type order_id customer_id payload now message handler
        w sent typed known =
      let e : Envelope = record {
        id = id;
        event_type = event_type;
        occurred_at = now;
        correlation_id = request_id;
        order_id = order_id;
        customer_id = customer_id;
        payload = payload;
      } in
      elim (Result-cases (codec.encode e)) [
        | inr (x, failed) ↦ absurd (ground (arith, failed, sent))
        | inl (body, encoded) ↦
            let same : message ≡ record { routing_key = event_type; body = body } =
              ground (arith, encoded, sent) in
            let read = laws.decode-encode e body encoded in
            (ap (λ m. m.routing_key) same, rw (ap (λ m. m.body) same, read, typed, known) refl)
      ]

  -- A message whose event has no handler is settled at once, wherever it comes from and however often
  -- it has been delivered: it is acknowledged if it parses and has a type, and dead-lettered if not. The
  -- subscriber's state does not change.
  pub unrouted_event_settled :
      (d : Delivery) (w : W) (k : Consumer)
      → ((e : Envelope) → codec.decode d.body ≡ some e → lookup e.event_type router ≡ none)
      → ((serve (subscribe codec (route router)) d w k).0
          ≡ (if is_readable (codec.decode d.body) then acked else dead_lettered))
        × ((serve (subscribe codec (route router)) d w k).1 ≡ w)
  unfolding serve subscribe deliver route dispatch handle dead_letter
  unrouted_event_settled d w k unrouted = elim (Option-cases (codec.decode d.body)) [
    | inl malformed ↦ rw malformed (refl, refl)
    | inr (e, parsed) ↦ elim (Bool-cases (is_empty e.event_type)) [
      | inl typeless ↦ rw (parsed, typeless) (refl, refl)
      | inr typed ↦ rw (parsed, typed, unrouted e parsed) (refl, refl)
    ]
  ]
