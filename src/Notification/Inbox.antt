-- ===== src/Notification/Inbox.antt =====
-- What a customer's inbox of internal/notification/notification.go shows.
use quorum_market.Common.{
  ℕ, zero, suc, ◌+◌, ◌≡◌, ◌≤◌, ◌<◌, refl, sym, ap, ◌∙◌, subst, false, none, some, List, [], ◌∷◌, ℤ,
  pos, negsuc, take, Str, is_empty, arith, Bool-cases, inl, inr,
}
use quorum_market.Httpx.Errors.{ok, Result-cases}
use quorum_market.Rmq.Consumer.{handled}
use quorum_market.Notification.{
  Message, Format, Lists, ListsLaws, Service, inbox_key, done, pipeline, executed, push_encoded,
  deliver, rows, inbox, shown_limit,
}

module _ {A : Type 0} where
  take-nil : (n : ℕ) → take {A = A} n [] ≡ []
  take-nil zero = refl
  take-nil (suc n) = refl

  take-take : (n m : ℕ) (xs : List A) → n ≤ m → take n (take m xs) ≡ take n xs
  take-take zero m xs h = refl
  take-take (suc n) zero xs h = absurd (omega (arith, h))
  take-take (suc n) (suc m) [] h = refl
  take-take (suc n) (suc m) (x ∷ xs) h = ap (λ ys. x ∷ ys) (take-take n m xs (omega (arith, h)))

  take-cons_take : (n : ℕ) (x : A) (xs : List A) → take n (x ∷ take n xs) ≡ take n (x ∷ xs)
  take-cons_take zero x xs = refl
  take-cons_take (suc n) x xs = ap (λ ys. x ∷ ys) (take-take n (suc n) xs (omega arith))

shown_limit-le : (s : Service) (limit : ℤ) → shown_limit s limit ≤ s.inbox_size
shown_limit-le s (pos n) = ground arith
shown_limit-le s (negsuc n) = ground arith

module _ {F R : Type 0} (format : Format F)
    (decodes : (n : Message) (v : Str) → format.encode n ≡ ok v → format.decode v ≡ some n)
    (lists : Lists R) (laws : ListsLaws lists) (s : Service) (customer_id : Str) where
  -- From `r`, in which the customer's inbox is empty, the messages are delivered to it, the newest first
  -- in the list and the last at `at`, none as late as the lifetime of an inbox after the one before.
  pub data Deliveries (r : R) : List Message → ℕ → R → Type 0 where
    first :
        (n : Message) (at : ℕ) (r' : R)
        → n.customer_id ≡ customer_id
        → deliver format lists s at done n r ≡ (handled, r')
        → Deliveries r (n ∷ []) at r'
    next :
        (n : Message) (ns : List Message) (at later : ℕ) (t u : R)
        → Deliveries r ns at t
        → at ≤ later
        → later < at + s.inbox_ttl
        → n.customer_id ≡ customer_id
        → deliver format lists s later done n t ≡ (handled, u)
        → Deliveries r (n ∷ ns) later u

  -- The rows are the messages.
  abbrev Encodes : List Message → List Str → Type 0
  Encodes [] [] = Unit
  Encodes [] (v ∷ vs) = ⊥
  Encodes (n ∷ ns) [] = ⊥
  Encodes (n ∷ ns) (v ∷ vs) = (format.encode n ≡ ok v) × Encodes ns vs

  rows-take :
      (k : ℕ) (ns : List Message) (vs : List Str)
      → Encodes ns vs
      → rows format lists s (take k vs) ≡ take k ns
  unfolding rows
  rows-take zero ns vs h = refl
  rows-take (suc k) [] [] h = refl
  rows-take (suc k) [] (v ∷ vs) h = absurd h
  rows-take (suc k) (n ∷ ns) [] h = absurd h
  rows-take (suc k) (n ∷ ns) (v ∷ vs) h =
      let d = decodes n v h.0 in let rest = rows-take k ns vs h.1 in ground (arith, d, rest)

  -- What Redis holds once a message has been delivered at a time.
  record Shows (ns : List Message) (at : ℕ) (r : R) : Type 0 where
    raws : List Str
    encoded : Encodes ns raws
    kept :
        (t : ℕ)
        → at ≤ t
        → t < at + s.inbox_ttl
        → lists.held t (inbox_key customer_id) r ≡ take s.inbox_size raws

  delivered :
      (n : Message) (at : ℕ) (r r' : R)
      → n.customer_id ≡ customer_id
      → deliver format lists s at done n r ≡ (handled, r')
      → (v : Str) × (format.encode n ≡ ok v)
        × (pipeline format lists s at (inbox_key customer_id) v r ≡ r')
  unfolding deliver push_encoded executed
  delivered n at r r' e h = elim (Bool-cases (is_empty n.customer_id)) [
    | inl nobody ↦ absurd (ground (arith, nobody, h))
    | inr known ↦ elim (Result-cases (format.encode n)) [
      | inr (x, failed) ↦ absurd (ground (arith, known, failed, h))
      | inl (v, good) ↦ (
        v,
        good,
        subst (λ c. pipeline format lists s at (inbox_key c) v r ≡ r') e
            (ground (arith, known, good, h)),
      )
    ]
  ]

  delivered-Shows :
      (n : Message) (ns : List Message) (vs : List Str) (at : ℕ) (r r' : R)
      → n.customer_id ≡ customer_id
      → deliver format lists s at done n r ≡ (handled, r')
      → Encodes ns vs
      → lists.held at (inbox_key customer_id) r ≡ take s.inbox_size vs
      → Shows (n ∷ ns) at r'
  unfolding pipeline
  delivered-Shows n ns vs at r r' e h enc before =
      let (v, good, run) = delivered n at r r' e h in
      let key = inbox_key customer_id in
      let pushed = lists.push at key v r in
      record {
        raws = v ∷ vs;
        encoded = (good, enc);
        kept = λ t p q.
            subst (λ x. lists.held t key x ≡ take s.inbox_size (v ∷ vs)) run
              (laws.held-expire at t key s.inbox_ttl (lists.trim at key s.inbox_size pushed) p q
                ∙ (laws.held-trim at key s.inbox_size pushed
                    ∙ (ap (take s.inbox_size) (laws.held-push at key v r ∙ ap (λ xs. v ∷ xs) before)
                        ∙ take-cons_take s.inbox_size v vs)));
      }

  Deliveries-Shows :
      (r : R) (ns : List Message) (at : ℕ) (t : R)
      → ((now : ℕ) → lists.held now (inbox_key customer_id) r ≡ [])
      → Deliveries r ns at t
      → Shows ns at t
  Deliveries-Shows r _ _ _ empty (first n at t e h) =
      delivered-Shows n [] [] at r t e h tt (empty at ∙ sym (take-nil s.inbox_size))
  Deliveries-Shows r _ _ _ empty (next n ns at later t u run p q e h) =
      let old = Deliveries-Shows r ns at t empty run in
      delivered-Shows n ns old.raws later t u e h old.encoded (old.kept later p q)

  -- Once messages have been delivered to an inbox that was empty, each before the lifetime of the inbox
  -- after the one before ends, the inbox shows the newest of them, the newest first, up to the limit of
  -- the request or its size; Redis answers, the lifetime after the last delivery has not ended, and JSON
  -- decodes the messages as they were encoded.
  pub inbox_shows_newest :
      (r t : R) (ns : List Message) (at now : ℕ) (limit : ℤ)
      → ((now : ℕ) → lists.held now (inbox_key customer_id) r ≡ [])
      → Deliveries r ns at t
      → at ≤ now
      → now < at + s.inbox_ttl
      → is_empty customer_id ≡ false
      → inbox format lists s now none customer_id limit t ≡ ok (take (shown_limit s limit) ns)
  unfolding inbox
  inbox_shows_newest r t ns at now limit empty run p q known =
      let shows = Deliveries-Shows r ns at t empty run in
      let k = shown_limit s limit in
      let held = shows.kept now p q in
      rw known (
        ap (λ vs. ok (rows format lists s (take k vs))) held
        ∙ (ap (λ vs. ok (rows format lists s vs))
              (take-take k s.inbox_size shows.raws (shown_limit-le s limit))
            ∙ ap ok (rows-take k ns shows.raws shows.encoded)))
