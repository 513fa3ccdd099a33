-- ===== src/Rmq/Consumer/Chances.antt =====
-- How often one message of the broker is handed to the handlers of internal/rmq/consumer.go.
use quorum_market.Common.{
  ℕ, ◌+◌, ◌*◌, ◌≤◌, ◌≡◌, refl, ap, Bool, true, false, List, [], ◌∷◌, ◌++◌, ◌==◌, if◌then◌else◌, All,
  Str, arith, count, Bool-cases, inl, inr,
}
use quorum_market.Rmq.Consumer.{
  Verdict, Delivery, Settlement, acked, dead_lettered, requeued, Consumer,
}
use quorum_market.Rmq.Consumer.Deliveries.{
  left_of, chances, all_chances, Site, serve, serves, Loses, loses, Run, start, served, lost,
  serve_uses_chance,
}

abbrev pub is_message : ℕ → Delivery → Bool
is_message m d = d.number == m

abbrev one_if : Bool → ℕ
one_if b = if b then 1 else 0

-- How often a message may still be handled, over all of its deliveries in a queue.
abbrev chances_of : ℕ → List Delivery → ℕ
chances_of m [] = 0
chances_of m (d ∷ q) = (if is_message m d then chances d else 0) + chances_of m q

chances_of-append :
    (m : ℕ) (a b : List Delivery) → chances_of m (a ++ b) ≡ chances_of m a + chances_of m b
chances_of-append m [] b = omega arith
chances_of-append m (d ∷ a) b = omega (arith, chances_of-append m a b)

pub chances_of_fresh :
    (m : ℕ) (q : List Delivery)
    → All (λ d. d.is_redelivered ≡ false) q
    → chances_of m q ≡ 2 * count (is_message m) q
chances_of_fresh m [] h = refl
chances_of_fresh m (d ∷ q) h = ground (arith, h.0, chances_of_fresh m q h.1)

pub count-le-chances_of : (m : ℕ) (q : List Delivery) → count (is_message m) q ≤ chances_of m q
count-le-chances_of m [] = omega arith
count-le-chances_of m (d ∷ q) = ground (arith, count-le-chances_of m q)

chances_of-left_of :
    (m : ℕ) (d : Delivery) (s : Settlement)
    → chances_of m (left_of d s) ≡ (if is_message m d then all_chances (left_of d s) else 0)
chances_of-left_of m d acked = ground arith
chances_of-left_of m d dead_lettered = ground arith
chances_of-left_of m d requeued = ground arith

module _ {W : Type 0} (handler : Str → W → Verdict × W) where
  -- How many deliveries of the message are handled in a run.
  pub handlings : ℕ → {s t : Site W} {n : ℕ} → Run handler s n t → ℕ
  handlings m start = 0
  handlings m (served r (serves a b c e d w k same)) = one_if (is_message m d) + handlings m r
  handlings m (lost r step) = handlings m r

  serve_uses_chance_of :
      (m : ℕ) (d : Delivery) (w : W) (k : Consumer)
      → chances_of m (left_of d (serve handler d w k).0) + one_if (is_message m d)
        ≤ (if is_message m d then chances d else 0)
  serve_uses_chance_of m d w k =
      let kept = chances_of-left_of m d (serve handler d w k).0 in
      let used = serve_uses_chance handler d w k in
      elim (Bool-cases (is_message m d)) [
        | inl mine ↦ ground (arith, kept, used, mine)
        | inr other ↦ ground (arith, kept, other)
      ]

  Loses-chances_of :
      (m : ℕ) {s t : Site W} → Loses handler s t → chances_of m t.queue ≤ chances_of m s.queue
  Loses-chances_of m (loses a b d w k) = ground (
    arith,
    chances_of-append m a (d ∷ b),
    chances_of-append m a (record d { is_redelivered = true } ∷ b),
  )

  pub Run-chances_of :
      (m : ℕ) {s t : Site W} {n : ℕ} (r : Run handler s n t)
      → handlings m r + chances_of m t.queue ≤ chances_of m s.queue
  unfolding handlings
  Run-chances_of m start = omega arith
  Run-chances_of m (served r (serves a b c e d w k same)) =
      let kept = left_of d (serve handler d w k).0 in
      omega (
        arith,
        Run-chances_of m r,
        chances_of-append m a (d ∷ b),
        chances_of-append m a b,
        chances_of-append m c e,
        chances_of-append m c (kept ++ e),
        chances_of-append m kept e,
        ap (chances_of m) same,
        serve_uses_chance_of m d w k,
      )
  Run-chances_of m (lost r step) = omega (arith, Run-chances_of m r, Loses-chances_of m step)
