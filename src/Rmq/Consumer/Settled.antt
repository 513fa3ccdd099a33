-- ===== src/Rmq/Consumer/Settled.antt =====
-- What becomes of the messages of a queue that the consumers of internal/rmq/consumer.go serve.
use quorum_market.Common.{
  ℕ, zero, suc, ◌+◌, ◌*◌, ◌%◌, ◌^◌, ◌≤◌, ◌≡◌, ◌≢◌, refl, ap, Bool, true, false, List, [], ◌∷◌, ◌++◌,
  length, count, All, length-append, ◌∙◌, Str, arith,
}
use quorum_market.Rmq.Consumer.{
  Verdict, handled, unprocessable, failing, Delivery, Consumer, handle,
}
use quorum_market.Rmq.Consumer.Chances.{
  is_message, handlings, Run-chances_of, chances_of_fresh, count-le-chances_of,
}
use quorum_market.Rmq.Consumer.Deliveries.{
  left_of, all_chances, Site, serve, Serves, serves, Loses, loses, Run, start, served, lost,
  Run-chances,
}

all_chances-le : (q : List Delivery) → all_chances q ≤ 2 * length q
all_chances-le [] = omega arith
all_chances-le (d ∷ q) = ground (arith, all_chances-le q)

module _ {W : Type 0} (handler : Str → W → Verdict × W) where
  -- However the workers of a queue are interleaved, whatever the handler answers, wherever the broker
  -- puts a requeued message and however often a channel is lost before a delivery is handled: where no
  -- message has been delivered before, the handler has been run on each message at most twice, and at
  -- most once if the message still waits in the queue.
  pub handled_at_most_twice :
      (s t : Site W) (n m : ℕ) (r : Run handler s n t)
      → All (λ d. d.is_redelivered ≡ false) s.queue
      → handlings handler m r + count (is_message m) t.queue ≤ 2 * count (is_message m) s.queue
  handled_at_most_twice s t n m r fresh = omega (
    arith,
    Run-chances_of handler m r,
    chances_of_fresh m s.queue fresh,
    count-le-chances_of m t.queue,
  )

  -- The head of the queue is served until nothing is left.
  drain_from :
      (fuel : ℕ) (s : Site W) (n : ℕ) (q : List Delivery) (w : W) (k : Consumer)
      → all_chances q ≤ fuel
      → Run handler s n (record { queue = q; world = w; consumer = k })
      → (m : ℕ) × (t : Site W) × Run handler s m t × (t.queue ≡ [])
  drain_from fuel s n [] w k enough r = (n, _, r, refl)
  drain_from zero s n (d ∷ q) w k enough r = absurd (ground (arith, enough))
  drain_from (suc fuel) s n (d ∷ q) w k enough r =
      let step = serves [] q [] q d w k refl in
      let used = Run-chances handler (served start step) in
      drain_from fuel s (suc n) _ _ _ (omega (arith, used, enough)) (served r step)

  -- From any queue the workers can go on until it is empty, and by then they have handled at most two
  -- deliveries for each message.
  pub queue_drains :
      (s : Site W)
      → (n : ℕ) × (t : Site W) × Run handler s n t × (t.queue ≡ []) × (n ≤ 2 * length s.queue)
  queue_drains s =
      let (n, t, r, empty) =
        drain_from (all_chances s.queue) s 0 s.queue s.world s.consumer (omega arith) start in
      (n, t, r, empty, omega (arith, Run-chances handler r, all_chances-le s.queue))

-- How many messages the counters and the queue account for.
abbrev pub accounted : {W : Type 0} → Site W → ℕ
accounted s = (s.consumer.processed + s.consumer.dead_letters + length s.queue) % 2 ^ 64

handle_counts :
    (v : Verdict) (d : Delivery) (k : Consumer)
    → let out = handle v d.is_redelivered k in
      (out.1.processed + out.1.dead_letters + length (left_of d out.0)) % 2 ^ 64
      ≡ (k.processed + k.dead_letters + 1) % 2 ^ 64
unfolding handle
handle_counts handled d k = ground arith
handle_counts unprocessable d k = ground arith
handle_counts failing d k = go d.is_redelivered
  where
    go :
        (again : Bool)
        → let out = handle failing again k in
          (out.1.processed + out.1.dead_letters + length (left_of d out.0)) % 2 ^ 64
          ≡ (k.processed + k.dead_letters + 1) % 2 ^ 64
    go true = ground arith
    go false = ground arith

module _ {W : Type 0} (handler : Str → W → Verdict × W) where
  serve_counts :
      (d : Delivery) (w : W) (k : Consumer)
      → let out = serve handler d w k in
        (out.2.processed + out.2.dead_letters + length (left_of d out.0)) % 2 ^ 64
        ≡ (k.processed + k.dead_letters + 1) % 2 ^ 64
  unfolding serve
  serve_counts d w k = handle_counts (handler d.body w).0 d k

  Serves-accounted : {s t : Site W} → Serves handler s t → accounted t ≡ accounted s
  Serves-accounted (serves a b c e d w k same) =
      let out = serve handler d w k in
      let kept = left_of d out.0 in
      omega (
        arith,
        length-append a (d ∷ b),
        length-append a b,
        length-append c e,
        length-append c (kept ++ e),
        length-append kept e,
        ap length same,
        serve_counts d w k,
      )

  Loses-accounted : {s t : Site W} → Loses handler s t → accounted t ≡ accounted s
  Loses-accounted (loses a b d w k) =
      omega
        (arith, length-append a (d ∷ b), length-append a (record d { is_redelivered = true } ∷ b))

  -- No message is lost: whatever the workers do, those processed, those dead-lettered and those in the
  -- queue stay as many as they were, as far as a uint64 counts.
  pub messages_accounted : (s t : Site W) (n : ℕ) → Run handler s n t → accounted t ≡ accounted s
  messages_accounted s t n start = refl
  messages_accounted s t n (served r step) = Serves-accounted step ∙ messages_accounted s _ _ r
  messages_accounted s t n (lost r step) = Loses-accounted step ∙ messages_accounted s _ _ r

-- A handler that never fails in a way that asks for another delivery.
abbrev pub IsSteady : {W : Type 0} → (Str → W → Verdict × W) → Type 0
IsSteady {W} handler = (body : Str) (w : W) → (handler body w).0 ≢ failing

module _ {W : Type 0} (handler : Str → W → Verdict × W) where
  steady_settles :
      (v : Verdict) (d : Delivery) (k : Consumer)
      → v ≢ failing
      → left_of d (handle v d.is_redelivered k).0 ≡ []
  unfolding handle
  steady_settles handled d k s = refl
  steady_settles unprocessable d k s = refl
  steady_settles failing d k s = absurd (s refl)

  Serves-steady :
      {s t : Site W} → IsSteady handler → Serves handler s t → suc (length t.queue) ≡ length s.queue
  unfolding serve
  Serves-steady steady (serves a b c e d w k same) =
      let kept = steady_settles (handler d.body w).0 d k (steady d.body w) in
      rw kept (
        omega
          (arith, length-append a (d ∷ b), length-append a b, length-append c e, ap length same))

  Loses-length : {s t : Site W} → Loses handler s t → length t.queue ≡ length s.queue
  Loses-length (loses a b d w k) =
      omega
        (arith, length-append a (d ∷ b), length-append a (record d { is_redelivered = true } ∷ b))

  -- With such a handler every delivery that is handled is settled.
  pub steady_handled_once :
      (s t : Site W) (n : ℕ)
      → IsSteady handler
      → Run handler s n t
      → n + length t.queue ≡ length s.queue
  steady_handled_once s t n steady start = omega arith
  steady_handled_once s t n steady (served r step) =
      omega (arith, steady_handled_once s _ _ steady r, Serves-steady steady step)
  steady_handled_once s t n steady (lost r step) =
      omega (arith, steady_handled_once s _ _ steady r, Loses-length step)
