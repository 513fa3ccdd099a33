-- ===== src/Rmq/Publisher/Confirms.antt =====
-- What Publish of internal/rmq/publisher.go answers, and what it does with its channel.
use quorum_market.Common.{
  ℕ, ◌<◌, refl, ◌≡◌, ◌⊎◌, ◌≢◌, Bool-cases, inl, inr, Bool, true, false, none, [], ◌∷◌, ◌++◌, length,
  arith,
}
use quorum_market.Rmq.Publisher.{
  Slot, Publisher, put, give_back, Ready, Confirmation, confirm_error, is_healthy, answered,
  send_failed, wait_failed, publish_key, borrow, Borrowed, got, refused, PublishError,
}

Borrowed-cases : (b : Borrowed) → ((c : ℕ) × (b ≡ got c)) ⊎ ((e : PublishError) × (b ≡ refused e))
Borrowed-cases (got c) = inl (c, refl)
Borrowed-cases (refused e) = inr (e, refl)

confirm_error-none :
    (confirmation : Confirmation) → confirm_error confirmation ≡ none → confirmation ≡ answered true
confirm_error-none send_failed h = cc
confirm_error-none wait_failed h = cc
confirm_error-none (answered true) h = refl
confirm_error-none (answered false) h = cc

-- Publish reports success only if the broker has acknowledged the message, on a channel that was
-- borrowed from a publisher that is not closed.
pub published_means_confirmed :
    (ready : Ready) (is_dead : ℕ → Bool) (opened : Slot) (confirmation : Confirmation)
    (p : Publisher)
    → (publish_key ready is_dead opened confirmation p).0 ≡ none
    → (confirmation ≡ answered true)
      × (p.is_closed ≡ false)
      × ((c : ℕ) × ((borrow ready is_dead opened p).0 ≡ got c))
unfolding publish_key
published_means_confirmed ready is_dead opened confirmation p h = elim (Bool-cases p.is_closed) [
  | inl shut ↦ absurd (ground (arith, shut, h))
  | inr up ↦ elim (Borrowed-cases (borrow ready is_dead opened p).0) [
    | inr (e, missing) ↦ absurd (ground (arith, up, missing, h))
    | inl (c, found) ↦
        (confirm_error-none confirmation (ground (arith, up, found, h)), up, (c, found))
  ]
]

-- A channel whose publish was not acknowledged, or that died, is not given back: the slot that goes
-- into the pool is an allowance to open another.
pub failed_channel_dropped :
    (is_dead : ℕ → Bool) (c : ℕ) (confirmation : Confirmation) (p : Publisher)
    → confirmation ≢ answered true
    → length p.slots < p.size
    → (give_back is_dead c (is_healthy confirmation) p).1.slots ≡ p.slots ++ (none ∷ [])
unfolding give_back put
failed_channel_dropped is_dead c send_failed p h room = ground (arith, room)
failed_channel_dropped is_dead c wait_failed p h room = ground (arith, room)
failed_channel_dropped is_dead c (answered true) p h room = absurd (h refl)
failed_channel_dropped is_dead c (answered false) p h room = ground (arith, room)
