-- ===== src/Rmq/Consumer/Deliveries.antt =====
-- The deliveries of a queue to the consumers of internal/rmq/consumer.go. The queue is the
-- broker's: it delivers a message again, marked as redelivered, when the message is requeued and when
-- the channel is lost before the message is settled.
use quorum_market.Common.{
  ℕ, suc, ◌+◌, ◌≤◌, ◌≡◌, refl, ap, Bool, true, false, List, [], ◌∷◌, ◌++◌, if◌then◌else◌, Str,
  arith,
}
use quorum_market.Rmq.Consumer.{
  Verdict, handled, unprocessable, failing, Delivery, Settlement, acked, dead_lettered, requeued,
  Consumer, handle,
}

-- The broker's part of what a settlement does to a message.
abbrev pub left_of : Delivery → Settlement → List Delivery
left_of d requeued = (record d { is_redelivered = true }) ∷ []
left_of d acked = []
left_of d dead_lettered = []

-- How often a message may still be handled.
abbrev pub chances : Delivery → ℕ
chances d = if d.is_redelivered then 1 else 2

abbrev pub all_chances : List Delivery → ℕ
all_chances [] = 0
all_chances (d ∷ ds) = chances d + all_chances ds

all_chances-append : (a b : List Delivery) → all_chances (a ++ b) ≡ all_chances a + all_chances b
all_chances-append [] b = omega arith
all_chances-append (d ∷ a) b = omega (arith, all_chances-append a b)

handle_uses_chance :
    (v : Verdict) (d : Delivery) (c : Consumer)
    → all_chances (left_of d (handle v d.is_redelivered c).0) + 1 ≤ chances d
unfolding handle
handle_uses_chance handled d c = ground arith
handle_uses_chance unprocessable d c = ground arith
handle_uses_chance failing d c = go d.is_redelivered refl
  where
    go :
        (again : Bool)
        → again ≡ d.is_redelivered
        → all_chances (left_of d (handle failing again c).0) + 1 ≤ chances d
    go true e = ground (arith, e)
    go false e = ground (arith, e)

-- The queue, the state that the handler works on, and the consumer's counters.
pub record Site (W : Type 0) : Type 0 where
  pub queue : List Delivery
  pub world : W
  pub consumer : Consumer

module _ {W : Type 0} (handler : Str → W → Verdict × W) where
  -- A worker hands the body of a delivery to the handler and settles it.
  unfoldable pub serve : Delivery → W → Consumer → Settlement × W × Consumer
  unfolding handle
  serve d w k =
      let (verdict, w') = handler d.body w in
      let (settlement, k') = handle verdict d.is_redelivered k in (settlement, w', k')

  -- A delivery that is served from anywhere in the queue; what is left of it goes back anywhere.
  pub data Serves : Site W → Site W → Type 0 where
    serves :
        (a b c e : List Delivery) (d : Delivery) (w : W) (k : Consumer)
        → a ++ b ≡ c ++ e
        → Serves
            (record { queue = a ++ (d ∷ b); world = w; consumer = k })
            (record {
              queue = c ++ (left_of d (serve d w k).0 ++ e);
              world = (serve d w k).1;
              consumer = (serve d w k).2;
            })

  -- A delivery whose channel is lost before it is handled.
  pub data Loses : Site W → Site W → Type 0 where
    loses :
        (a b : List Delivery) (d : Delivery) (w : W) (k : Consumer)
        → Loses
            (record { queue = a ++ (d ∷ b); world = w; consumer = k })
            (record {
              queue = a ++ (record d { is_redelivered = true } ∷ b);
              world = w;
              consumer = k;
            })

  -- What the workers do from one state to another, with the number of deliveries they handle.
  pub data Run (s : Site W) : ℕ → Site W → Type 0 where
    start : Run s 0 s
    served : {n : ℕ} {t u : Site W} → Run s n t → Serves t u → Run s (suc n) u
    lost : {n : ℕ} {t u : Site W} → Run s n t → Loses t u → Run s n u

  pub serve_uses_chance :
      (d : Delivery) (w : W) (k : Consumer)
      → all_chances (left_of d (serve d w k).0) + 1 ≤ chances d
  unfolding serve
  serve_uses_chance d w k = handle_uses_chance (handler d.body w).0 d k

  Serves-chances : {s t : Site W} → Serves s t → suc (all_chances t.queue) ≤ all_chances s.queue
  Serves-chances (serves a b c e d w k same) =
      let kept = left_of d (serve d w k).0 in
      omega (
        arith,
        all_chances-append a (d ∷ b),
        all_chances-append a b,
        all_chances-append c e,
        all_chances-append c (kept ++ e),
        all_chances-append kept e,
        ap all_chances same,
        serve_uses_chance d w k,
      )

  Loses-chances : {s t : Site W} → Loses s t → all_chances t.queue ≤ all_chances s.queue
  Loses-chances (loses a b d w k) = ground (
    arith,
    all_chances-append a (d ∷ b),
    all_chances-append a (record d { is_redelivered = true } ∷ b),
  )

  pub Run-chances :
      {s t : Site W} {n : ℕ} → Run s n t → n + all_chances t.queue ≤ all_chances s.queue
  Run-chances start = omega arith
  Run-chances (served r step) = omega (arith, Run-chances r, Serves-chances step)
  Run-chances (lost r step) = omega (arith, Run-chances r, Loses-chances step)
