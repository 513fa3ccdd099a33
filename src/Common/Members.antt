-- ===== src/Common/Members.antt =====
-- Membership that can be taken apart, and predicates that hold of every element of a list.
use mathlib.Core.Path.{◌≡◌, sym, subst}
use mathlib.Core.Logic.{◌⊎◌, inl, inr}
use mathlib.Core.List.{List, [], ◌∷◌, ◌++◌}
use quorum_market.Common.Lists.{All}
pub use mathlib.Core.List.{Memᴰ}

module _ {ℓ} {A : Type ℓ} where
  pub mem-cons_cases : (e x : A) (xs : List A) → Memᴰ e (x ∷ xs) → (e ≡ x) ⊎ Memᴰ e xs
  mem-cons_cases e x xs (Memᴰ.head q) = inl q
  mem-cons_cases e x xs (Memᴰ.tail m) = inr m

  pub All-mem {κ} : (Q : A → Type κ) (xs : List A) (x : A) → Memᴰ x xs → All Q xs → Q x
  All-mem Q [] x m h = elim m [ ]
  All-mem Q (e ∷ es) x (Memᴰ.head q) h = subst Q (sym q) h.0
  All-mem Q (e ∷ es) x (Memᴰ.tail m) h = All-mem Q es x m h.1

  pub All-of_mem {κ} : (Q : A → Type κ) (xs : List A) → ((x : A) → Memᴰ x xs → Q x) → All Q xs
  All-of_mem Q [] h = tt
  All-of_mem Q (x ∷ xs) h = (h x (Memᴰ.head (λ i. x)), All-of_mem Q xs (λ y m. h y (Memᴰ.tail m)))

  pub All-map {κ μ} :
      (P : A → Type κ) (Q : A → Type μ) (xs : List A) → ((x : A) → P x → Q x) → All P xs → All Q xs
  All-map P Q [] f h = tt
  All-map P Q (x ∷ xs) f h = (f x h.0, All-map P Q xs f h.1)

  -- What holds of a list holds of one of its elements, and of the list without it.
  pub All-without {κ} :
      (P : A → Type κ) (xs : List A) (y : A) (ys : List A)
      → All P (xs ++ (y ∷ ys))
      → P y × All P (xs ++ ys)
  All-without P [] y ys h = h
  All-without P (x ∷ xs) y ys h =
      let (here, rest) = All-without P xs y ys h.1 in (here, (h.0, rest))
