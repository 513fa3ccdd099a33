-- ===== src/Rmq/Tests.antt =====
-- internal/rmq on concrete inputs.
use quorum_market.Common.{
  ℕ, zero, suc, ◌+◌, ◌*◌, ◌≤◌, ◌≡◌, refl, Bool, true, false, none, [], ◌∷◌, length, count, ◌⊎◌, Str,
  bytes, pos,
}
use quorum_market.Rmq.{Config}
use quorum_market.Rmq.Consumer.{Verdict, handled, failing, Delivery, Consumer}
use quorum_market.Rmq.Consumer.Deliveries.{Site, Run, start, served, serves, serve}
use quorum_market.Rmq.Consumer.Chances.{is_message, handlings}
use quorum_market.Rmq.Consumer.Settled.{handled_at_most_twice, queue_drains}
use quorum_market.Rmq.Publisher.{Publisher, new_publisher, channel, put, examine}
use quorum_market.Rmq.Publisher.Pool.{
  System, Reach, Step, takes, opens, places, IsBalanced, pool_has_room,
}
use quorum_market.Rmq.Publisher.Pool
use quorum_market.Rmq.Publisher.Exclusive.{channels_exclusive}

-- It fails once, and handles all that comes later.
abbrev flaky : Str → ℕ → Verdict × ℕ
flaky body zero = (failing, 1)
flaky body (suc n) = (handled, suc n)

abbrev idle : Consumer
idle = record {
  queue = bytes "orders";
  workers = 2;
  prefetch = 1;
  processed = 0;
  dead_letters = 0;
  requeues = 0;
}

abbrev message : Delivery
message = record { number = 1; body = bytes "{}"; is_redelivered = false }

-- Another message with the same body.
abbrev second : Delivery
second = record message { number = 2 }

abbrev full : Site ℕ
full = record { queue = message ∷ (second ∷ []); world = 0; consumer = idle }

-- The first message is requeued behind the second.
abbrev after_one : Site ℕ
after_one = record {
  queue = second ∷ (record message { is_redelivered = true } ∷ []);
  world = 1;
  consumer = record idle { requeues = 1 };
}

one_served : Run flaky full 1 after_one
unfolding serve
one_served = served start (serves [] (second ∷ []) (second ∷ []) [] message 0 idle refl)

handled_at_most_twice_example :
    handlings flaky 1 one_served + count (is_message 1) after_one.queue
    ≤ 2 * count (is_message 1) full.queue
handled_at_most_twice_example =
    handled_at_most_twice flaky full after_one 1 1 one_served (refl, (refl, tt))

queue_drains_example :
    (n : ℕ) × (t : Site ℕ) × Run flaky full n t × (t.queue ≡ []) × (n ≤ 2 * length full.queue)
queue_drains_example = queue_drains flaky full

abbrev config : Config
config = record { queue = bytes "orders"; workers = pos 2; prefetch = pos 1; pool_size = pos 2 }

abbrev pool : Publisher
pool = record { size = 2; slots = none ∷ (none ∷ []); is_closed = false }

-- A goroutine has opened channel 7.
abbrev one_out : System
one_out = record {
  publisher = record { size = 2; slots = none ∷ []; is_closed = false };
  held = channel 7 ∷ [];
  reclaimed = 0;
}

abbrev none_dead : ℕ → Bool
none_dead c = false

one_out_Reach : Reach config one_out
unfolding new_publisher places examine
one_out_Reach =
    Pool.later (Pool.later Pool.start (takes none_dead none (none ∷ []) pool [] 0))
      (opens 7 [] [] one_out.publisher 0 refl)

pool_has_room_example :
    IsBalanced one_out × ((one_out.held ≡ []) ⊎ ((put none one_out.publisher).0 ≡ true))
pool_has_room_example = pool_has_room config one_out none one_out_Reach

channels_exclusive_example : places 7 one_out ≤ 1
channels_exclusive_example = channels_exclusive config one_out 7 one_out_Reach
