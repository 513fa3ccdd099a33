-- ===== src/Common/Counts.antt =====
-- Counting: what a permutation, a map and two complementary tests do to a count.
use Prim.Native.Nat.{suc, ◌+◌, ◌≤◌}
use mathlib.Core.Path.{◌≡◌, refl, ap, ◌∙◌}
use mathlib.Core.Logic.{∥∥₁_elim}
use mathlib.Core.Bool.{Bool, true, false}
use mathlib.Core.List.{List, [], ◌∷◌, map, Perm, Permᴰ}
use native.Mathlib.Omega.{arith}
use native.Mathlib.Nat.{ℕ_set}
use quorum_market.Common.Lists.{length, count, All}
pub use mathlib.Core.List.{Perm}

module _ {ℓ} {A : Type ℓ} where
  count-permᴰ : (p : A → Bool) {xs ys : List A} → Permᴰ xs ys → count p xs ≡ count p ys
  count-permᴰ p Permᴰ.nil = refl
  count-permᴰ p (Permᴰ.cons q d) = ground (arith, count-permᴰ p d, ap p q)
  count-permᴰ p (Permᴰ.swap q r) = ground (arith, ap p q, ap p r)
  count-permᴰ p (Permᴰ.trans d e) = count-permᴰ p d ∙ count-permᴰ p e

  pub count-perm : (p : A → Bool) (xs ys : List A) → Perm xs ys → count p xs ≡ count p ys
  count-perm p xs ys d = ∥∥₁_elim d (ℕ_set _ _) (count-permᴰ p)

  length-permᴰ : {xs ys : List A} → Permᴰ xs ys → length xs ≡ length ys
  length-permᴰ Permᴰ.nil = refl
  length-permᴰ (Permᴰ.cons q d) = ap suc (length-permᴰ d)
  length-permᴰ (Permᴰ.swap q r) = refl
  length-permᴰ (Permᴰ.trans d e) = length-permᴰ d ∙ length-permᴰ e

  pub length-perm : (xs ys : List A) → Perm xs ys → length xs ≡ length ys
  length-perm xs ys d = ∥∥₁_elim d (ℕ_set _ _) length-permᴰ

  pub count-map {κ} :
      {B : Type κ} (p : A → Bool) (f : B → A) (xs : List B)
      → count p (map f xs) ≡ count (λ x. p (f x)) xs
  count-map p f [] = refl
  count-map p f (x ∷ xs) = ground (arith, count-map p f xs)

  pub length-map {κ} : {B : Type κ} (f : B → A) (xs : List B) → length (map f xs) ≡ length xs
  length-map f [] = refl
  length-map f (x ∷ xs) = ap suc (length-map f xs)

-- Where one of two tests holds only if the other fails, together they pass each element once.
pub count_exclusive {ℓ} :
    {A : Type ℓ} (p q : A → Bool) (xs : List A)
    → All (λ x. p x ≡ true → q x ≡ false) xs
    → count p xs + count q xs ≤ length xs
count_exclusive p q [] h = omega arith
count_exclusive p q (x ∷ xs) h = ground (arith, h.0, count_exclusive p q xs h.1)

pub count_mono {ℓ} :
    {A : Type ℓ} (p q : A → Bool) (xs : List A)
    → ((x : A) → p x ≡ true → q x ≡ true)
    → count p xs ≤ count q xs
count_mono p q [] h = omega arith
count_mono p q (x ∷ xs) h = ground (arith, h x, count_mono p q xs h)
