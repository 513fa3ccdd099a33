-- ===== src/Warehouse/Shipper/Messages.antt =====
-- The ship messages of internal/warehouse/shipper.go, as the consumer of internal/rmq/consumer.go
-- delivers them.
use quorum_market.Common.{
  ℕ, suc, ◌+◌, ◌≡◌, ◌≢◌, ◌⊎◌, refl, inl, inr, ◌&&◌, arith, Option-cases, Bool-cases, Str, is_empty,
  length,
}
use quorum_market.Warehouse.Inventory.Settling.{ship, ShipOutcome, completed, duplicate, rejected}
use quorum_market.Warehouse.Inventory.Lifecycle.{ship_once, ship_duplicate}
use quorum_market.Warehouse.Shipper.{Setup, Depot, no_items, handle_ship}
use quorum_market.Rmq.Consumer.{handled, failing}
use quorum_market.Rmq.Consumer.Deliveries.{Site, Run}
use quorum_market.Rmq.Consumer.Settled.{steady_handled_once}

ShipOutcome-cases : (o : ShipOutcome) → (o ≡ completed) ⊎ ((o ≡ duplicate) ⊎ (o ≡ rejected))
ShipOutcome-cases completed = inl refl
ShipOutcome-cases duplicate = inr (inl refl)
ShipOutcome-cases rejected = inr (inr refl)

handle_ship_never_fails :
    (setup : Setup) (body : Str) (depot : Depot) → (handle_ship setup body depot).0 ≢ failing
unfolding handle_ship
handle_ship_never_fails setup body depot h = elim (Option-cases (setup.decode body)) [
  | inl bad ↦ ground (arith, bad, h)
  | inr (msg, parsed) ↦ elim (Bool-cases (is_empty msg.reservation_id && no_items msg.items)) [
    | inl bare ↦ ground (arith, parsed, bare, h)
    | inr full ↦
        let out = ship (setup.clock depot.ticks) msg.reservation_id msg.items depot.inventory in
        elim (ShipOutcome-cases out.0) [
          | inl o ↦ ground (arith, parsed, full, o, h)
          | inr (inl o) ↦ ground (arith, parsed, full, o, h)
          | inr (inr o) ↦ ground (arith, parsed, full, o, h)
        ]
  ]
]

-- The workers that ship requeue nothing: however they are interleaved, and however often a channel is
-- lost before a delivery is handled, each message that they handle leaves the queue at once.
pub shipments_settle_at_once :
    (setup : Setup) (s t : Site Depot) (n : ℕ)
    → Run (handle_ship setup) s n t
    → n + length t.queue ≡ length s.queue
shipments_settle_at_once setup s t n =
    steady_handled_once (handle_ship setup) s t n (handle_ship_never_fails setup)

-- A ship message that has been handled without an error and is delivered again is handled without an
-- error again, and then neither the inventory nor the announcements change.
pub shipment_redelivered :
    (setup : Setup) (body : Str) (depot : Depot)
    → (handle_ship setup body depot).0 ≡ handled
    → let depot' = (handle_ship setup body depot).1 in
      handle_ship setup body depot' ≡ (handled, record depot' { ticks = suc depot'.ticks })
unfolding handle_ship
shipment_redelivered setup body depot h = elim (Option-cases (setup.decode body)) [
  | inl bad ↦ absurd (ground (arith, bad, h))
  | inr (msg, parsed) ↦ elim (Bool-cases (is_empty msg.reservation_id && no_items msg.items)) [
    | inl bare ↦ absurd (ground (arith, parsed, bare, h))
    | inr full ↦
        let id = msg.reservation_id in
        let now = setup.clock depot.ticks in
        let later = setup.clock (suc depot.ticks) in
        elim (ShipOutcome-cases (ship now id msg.items depot.inventory).0) [
          | inl o ↦
              ground (arith, parsed, full, o, ship_once now later id msg.items depot.inventory o)
          | inr (inl o) ↦
              ground
                (arith, parsed, full, o, ship_duplicate now later id msg.items depot.inventory o)
          | inr (inr o) ↦ absurd (ground (arith, parsed, full, o, h))
        ]
  ]
]
