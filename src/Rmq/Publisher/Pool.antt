-- ===== src/Rmq/Publisher/Pool.antt =====
-- The pool of channels of internal/rmq/publisher.go, shared by any number of goroutines.
use quorum_market.Common.{
  ℕ, zero, suc, ◌+◌, ◌≡◌, ◌⊎◌, inl, inr, refl, ap, Bool, true, false, not, ◌||◌, none, some, List,
  [], ◌∷◌, ◌++◌, length, length-append, count, arith, ◌==◌, if◌then◌else◌,
}
use quorum_market.Rmq.{Config}
use quorum_market.Rmq.Publisher.{
  Slot, Publisher, empty_slots, new_publisher, Holding, channel, allowance, examine, put, give_back,
}

-- The publisher, what the goroutines hold between a borrow and a giveBack, and how many slots Close
-- has taken.
pub record System : Type 0 where
  pub publisher : Publisher
  pub held : List Holding
  pub reclaimed : ℕ

abbrev pub is_slot : ℕ → Slot → Bool
is_slot c none = false
is_slot c (some d) = c == d

abbrev pub is_held : ℕ → Holding → Bool
is_held c allowance = false
is_held c (channel d) = c == d

-- In how many places a channel is.
unfoldable pub places : ℕ → System → ℕ
places c s = count (is_slot c) s.publisher.slots + count (is_held c) s.held

-- One atomic operation on the pool by some goroutine. A channel that is opened is a new one.
pub data Step : System → System → Type 0 where
  takes :
      (is_dead : ℕ → Bool) (slot : Slot) (slots : List Slot) (p : Publisher) (hs : List Holding)
      (n : ℕ)
      → Step
          (record { publisher = record p { slots = slot ∷ slots }; held = hs; reclaimed = n })
          (record {
            publisher = record p { slots = slots };
            held = examine is_dead slot ∷ hs;
            reclaimed = n;
          })
  opens :
      (c : ℕ) (a b : List Holding) (p : Publisher) (n : ℕ)
      → places c (record { publisher = p; held = a ++ (allowance ∷ b); reclaimed = n }) ≡ 0
      → Step
          (record { publisher = p; held = a ++ (allowance ∷ b); reclaimed = n })
          (record { publisher = p; held = a ++ (channel c ∷ b); reclaimed = n })
  fails_to_open :
      (a b : List Holding) (p : Publisher) (n : ℕ)
      → Step
          (record { publisher = p; held = a ++ (allowance ∷ b); reclaimed = n })
          (record { publisher = (put none p).1; held = a ++ b; reclaimed = n })
  gives_back :
      (is_dead : ℕ → Bool) (healthy : Bool) (c : ℕ) (a b : List Holding) (p : Publisher) (n : ℕ)
      → Step
          (record { publisher = p; held = a ++ (channel c ∷ b); reclaimed = n })
          (record { publisher = (give_back is_dead c healthy p).1; held = a ++ b; reclaimed = n })
  reclaims :
      (slot : Slot) (slots : List Slot) (p : Publisher) (hs : List Holding) (n : ℕ)
      → Step
          (record { publisher = record p { slots = slot ∷ slots }; held = hs; reclaimed = n })
          (record {
            publisher = record p { slots = slots; is_closed = true };
            held = hs;
            reclaimed = suc n;
          })

pub data Reach (cfg : Config) : System → Type 0 where
  start : Reach cfg (record { publisher = new_publisher cfg; held = []; reclaimed = 0 })
  later : {s t : System} → Reach cfg s → Step s t → Reach cfg t

abbrev pub IsBalanced : System → Type 0
IsBalanced s = length s.publisher.slots + length s.held + s.reclaimed ≡ s.publisher.size

length-empty_slots : (n : ℕ) → length (empty_slots n) ≡ n
length-empty_slots zero = refl
length-empty_slots (suc n) = ap suc (length-empty_slots n)

Step-IsBalanced : {s t : System} → Step s t → IsBalanced s → IsBalanced t
unfolding put give_back
Step-IsBalanced (takes dead slot slots p hs n) h = omega (arith, h)
Step-IsBalanced (opens c a b p n fresh) h =
    omega (arith, h, length-append a (allowance ∷ b), length-append a (channel c ∷ b))
Step-IsBalanced (fails_to_open a b p n) h = ground (
  arith,
  h,
  length-append a (allowance ∷ b),
  length-append a b,
  length-append p.slots (none ∷ []),
)
Step-IsBalanced (gives_back dead healthy c a b p n) h =
    let slot = if not healthy || dead c then none else some c in
    ground (
      arith,
      h,
      length-append a (channel c ∷ b),
      length-append a b,
      length-append p.slots (slot ∷ []),
    )
Step-IsBalanced (reclaims slot slots p hs n) h = omega (arith, h)

Reach-IsBalanced : (cfg : Config) (s : System) → Reach cfg s → IsBalanced s
unfolding new_publisher
Reach-IsBalanced cfg s start = omega (arith, length-empty_slots (new_publisher cfg).size)
Reach-IsBalanced cfg s (later r step) = Step-IsBalanced step (Reach-IsBalanced cfg _ r)

IsBalanced-put :
    (s : System) (slot : Slot) → IsBalanced s → (s.held ≡ []) ⊎ ((put slot s.publisher).0 ≡ true)
unfolding put
IsBalanced-put s slot balanced = go s.held refl
  where
    go : (hs : List Holding) → hs ≡ s.held → (hs ≡ []) ⊎ ((put slot s.publisher).0 ≡ true)
    go [] same = inl refl
    go (h ∷ hs) same = inr (ground (arith, balanced, ap length same))

-- In every state that goroutines can bring a new publisher to, with Close among them, the slots in
-- the pool, those in use and those that Close took add up to the capacity, and there is none in use or
-- there is room to give a slot back.
pub pool_has_room :
    (cfg : Config) (s : System) (slot : Slot)
    → Reach cfg s
    → IsBalanced s × ((s.held ≡ []) ⊎ ((put slot s.publisher).0 ≡ true))
pool_has_room cfg s slot r =
    let balanced = Reach-IsBalanced cfg s r in (balanced, IsBalanced-put s slot balanced)
