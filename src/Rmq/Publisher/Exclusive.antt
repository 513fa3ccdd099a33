-- ===== src/Rmq/Publisher/Exclusive.antt =====
-- Who uses a channel of the pool of internal/rmq/publisher.go.
use quorum_market.Common.{
  ℕ, zero, suc, ◌+◌, ◌≤◌, ◌≡◌, refl, Bool, false, not, ◌||◌, none, some, List, [], ◌∷◌, ◌++◌, count,
  arith, if◌then◌else◌,
}
use quorum_market.Rmq.{Config}
use quorum_market.Rmq.Publisher.{
  empty_slots, new_publisher, channel, allowance, examine, put, give_back,
}
use quorum_market.Rmq.Publisher.Pool.{
  System, Step, takes, opens, fails_to_open, gives_back, reclaims, Reach, start, later, places,
  is_slot, is_held,
}

count-append {ℓ} :
    {A : Type ℓ} (p : A → Bool) (xs ys : List A) → count p (xs ++ ys) ≡ count p xs + count p ys
count-append p [] ys = omega arith
count-append p (x ∷ xs) ys = ground (arith, count-append p xs ys)

places-empty_slots :
    (c n : ℕ)
    → places c (record {
      publisher = record { size = n; slots = empty_slots n; is_closed = false };
      held = [];
      reclaimed = 0;
    })
      ≡ 0
unfolding places
places-empty_slots c zero = refl
places-empty_slots c (suc n) = ground (arith, places-empty_slots c n)

abbrev pub IsExclusive : System → Type 0
IsExclusive s = (c : ℕ) → places c s ≤ 1

Step-IsExclusive : {s t : System} → Step s t → IsExclusive s → IsExclusive t
unfolding places put give_back examine
Step-IsExclusive (takes dead none slots p hs n) h = λ c. ground (arith, h c)
Step-IsExclusive (takes dead (some d) slots p hs n) h = λ c. ground (arith, h c)
Step-IsExclusive (opens d a b p n fresh) h = λ c. ground (
  arith,
  h c,
  fresh,
  count-append (is_held c) a (allowance ∷ b),
  count-append (is_held c) a (channel d ∷ b),
  count-append (is_held d) a (allowance ∷ b),
)
Step-IsExclusive (fails_to_open a b p n) h = λ c. ground (
  arith,
  h c,
  count-append (is_held c) a (allowance ∷ b),
  count-append (is_held c) a b,
  count-append (is_slot c) p.slots (none ∷ []),
)
Step-IsExclusive (gives_back dead healthy d a b p n) h = λ c.
    let slot = if not healthy || dead d then none else some d in
    ground (
      arith,
      h c,
      count-append (is_held c) a (channel d ∷ b),
      count-append (is_held c) a b,
      count-append (is_slot c) p.slots (slot ∷ []),
    )
Step-IsExclusive (reclaims none slots p hs n) h = λ c. ground (arith, h c)
Step-IsExclusive (reclaims (some d) slots p hs n) h = λ c. ground (arith, h c)

-- In every state that goroutines can bring a new publisher to, a channel is in one place at most: it
-- is in one slot of the pool, or one goroutine holds it, or neither.
pub channels_exclusive : (cfg : Config) (s : System) (c : ℕ) → Reach cfg s → places c s ≤ 1
unfolding new_publisher
channels_exclusive cfg s c start = omega (arith, places-empty_slots c (new_publisher cfg).size)
channels_exclusive cfg s c (later r step) =
    Step-IsExclusive step (λ d. channels_exclusive cfg _ d r) c
