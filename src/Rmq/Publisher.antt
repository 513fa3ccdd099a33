-- ===== src/Rmq/Publisher.antt =====
-- internal/rmq/publisher.go: the pool of channels, and what Publish answers. A channel is a number;
-- the broker's answers, and which case of a `select` is ready, are arguments.
pub mod Pool
pub mod Exclusive
pub mod Confirms
use quorum_market.Common.{
  ℕ, zero, suc, Bool, true, false, not, ◌||◌, Option, none, some, List, [], ◌∷◌, ◌++◌, length, ltb,
  if◌then◌else◌,
}
use quorum_market.Rmq.{Config, at_least_one}

-- A slot without a channel is an allowance to open one.
abbrev pub Slot : Type 0
Slot = Option ℕ

-- `slots` is what the Go channel `pool`, of capacity `size`, holds.
pub record Publisher : Type 0 where
  pub size : ℕ
  pub slots : List Slot
  pub is_closed : Bool

abbrev pub empty_slots : ℕ → List Slot
empty_slots zero = []
empty_slots (suc n) = none ∷ empty_slots n

-- `newPublisher`, if its topology can be declared
unfoldable pub new_publisher : Config → Publisher
unfolding at_least_one
new_publisher cfg =
    let size = at_least_one cfg.pool_size in
    record { size = size; slots = empty_slots size; is_closed = false }

pub data PublishError : Type 0 where
  pool_exhausted : PublishError
  already_closed : PublishError
  not_opened : PublishError
  not_published : PublishError
  not_confirmed : PublishError
  nacked : PublishError

-- What a publish holds: a channel, or the allowance to open one.
pub data Holding : Type 0 where
  channel : ℕ → Holding
  allowance : Holding

-- `slot != nil && !slot.IsClosed()`, for a slot that has been taken
unfoldable pub examine : (ℕ → Bool) → Slot → Holding
examine is_dead none = allowance
examine is_dead (some c) = if is_dead c then allowance else channel c

-- `p.pool <- slot` while there is room: whether there is, and the pool afterwards.
unfoldable pub put : Slot → Publisher → Bool × Publisher
put slot p =
    if ltb (length p.slots) p.size
    then (true, record p { slots = p.slots ++ (slot ∷ []) })
    else (false, p)

-- The case of the `select` in `borrow` that is taken.
pub data Ready : Type 0 where
  slot_ready : Ready
  timed_out : Ready
  closing : Ready

pub data Borrowed : Type 0 where
  got : ℕ → Borrowed
  refused : PublishError → Borrowed

-- The rest of `borrow`: `opened` is what `openConfirming` returns.
unfoldable pub finish_borrow : Slot → Holding → Publisher → Borrowed × Publisher
unfolding put
finish_borrow opened (channel c) p = (got c, p)
finish_borrow (some c) allowance p = (got c, p)
finish_borrow none allowance p = (refused not_opened, (put none p).1)

-- A slot can be received only if there is one; without one, the timer ends the wait.
borrow_ready : Ready → (ℕ → Bool) → Slot → List Slot → Publisher → Borrowed × Publisher
unfolding examine finish_borrow
borrow_ready timed_out is_dead opened slots p = (refused pool_exhausted, p)
borrow_ready closing is_dead opened slots p = (refused already_closed, p)
borrow_ready slot_ready is_dead opened [] p = (refused pool_exhausted, p)
borrow_ready slot_ready is_dead opened (slot ∷ slots) p =
    finish_borrow opened (examine is_dead slot) (record p { slots = slots })

unfoldable pub borrow : Ready → (ℕ → Bool) → Slot → Publisher → Borrowed × Publisher
unfolding borrow_ready
borrow ready is_dead opened p = borrow_ready ready is_dead opened p.slots p

-- `giveBack`: whether the slot went into the pool.
unfoldable pub give_back : (ℕ → Bool) → ℕ → Bool → Publisher → Bool × Publisher
unfolding put
give_back is_dead c healthy p = put (if not healthy || is_dead c then none else some c) p

-- How the broker answers a message that is sent on a channel.
pub data Confirmation : Type 0 where
  send_failed : Confirmation
  wait_failed : Confirmation
  answered : Bool → Confirmation

abbrev pub confirm_error : Confirmation → Option PublishError
confirm_error send_failed = some not_published
confirm_error wait_failed = some not_confirmed
confirm_error (answered false) = some nacked
confirm_error (answered true) = none

abbrev pub is_healthy : Confirmation → Bool
is_healthy (answered true) = true
is_healthy _ = false

publish_on : (ℕ → Bool) → Confirmation → Borrowed × Publisher → Option PublishError × Publisher
unfolding give_back
publish_on is_dead confirmation (refused e, p) = (some e, p)
publish_on is_dead confirmation (got c, p) =
    (confirm_error confirmation, (give_back is_dead c (is_healthy confirmation) p).1)

-- `PublishKey`, where no other goroutine uses the pool until it ends.
unfoldable pub publish_key :
    Ready → (ℕ → Bool) → Slot → Confirmation → Publisher → Option PublishError × Publisher
unfolding borrow publish_on
publish_key ready is_dead opened confirmation p =
    if p.is_closed
    then (some already_closed, p)
    else publish_on is_dead confirmation (borrow ready is_dead opened p)

reclaim : ℕ → List Slot → List Slot
reclaim zero slots = slots
reclaim (suc n) [] = []
reclaim (suc n) (slot ∷ slots) = reclaim n slots

-- `Close`: as many slots as there are, up to the capacity, are taken and their channels closed.
unfoldable pub close : Publisher → Publisher
unfolding reclaim
close p = record p { is_closed = true; slots = reclaim p.size p.slots }
