-- ===== src/Common/Text.antt =====
-- Go strings are sequences of bytes: equality, the order `<` and prefixes, byte by byte.
use Prim.Native.Nat.{ℕ}
use Prim.Native.Char.{code}
use Prim.Native.String.{String}
use mathlib.Core.Path.{◌≡◌, refl}
use mathlib.Core.Logic.{◌↔◌}
use mathlib.Core.Bool.{Bool, true, false, ◌&&◌}
use mathlib.Core.List.{List, [], ◌∷◌}
use native.Mathlib.Omega.{arith}
use quorum_market.Common.Tests.{ltb, ◌==◌, if◌then◌else◌}

abbrev pub Str : Type 0
Str = List ℕ

-- The bytes of an ASCII literal.
abbrev pub bytes : String → Str
bytes String.[] = []
bytes (String.◌∷◌ c s) = code c ∷ bytes s

unfoldable pub str_eq : Str → Str → Bool
str_eq [] [] = true
str_eq [] (b ∷ y) = false
str_eq (a ∷ x) [] = false
str_eq (a ∷ x) (b ∷ y) = a == b && str_eq x y

pub str_eq_refl : (x : Str) → str_eq x x ≡ true
unfolding str_eq
str_eq_refl [] = refl
str_eq_refl (a ∷ x) = ground (arith, str_eq_refl x)

pub str_eq→eq : (x y : Str) → str_eq x y ≡ true → x ≡ y
unfolding str_eq
str_eq→eq [] [] h = refl
str_eq→eq [] (b ∷ y) h = cc
str_eq→eq (a ∷ x) [] h = cc
str_eq→eq (a ∷ x) (b ∷ y) h = ground (arith, str_eq→eq x y)

pub str_eq_iff : (x y : Str) → (str_eq x y ≡ true) ↔ (x ≡ y)
str_eq_iff x y = (str_eq→eq x y, λ e. cc (str_eq_refl x))

unfoldable pub str_lt : Str → Str → Bool
str_lt [] [] = false
str_lt [] (b ∷ y) = true
str_lt (a ∷ x) [] = false
str_lt (a ∷ x) (b ∷ y) = if ltb a b then true else if ltb b a then false else str_lt x y

pub str_lt_irrefl : (x : Str) → str_lt x x ≡ false
unfolding str_lt
str_lt_irrefl [] = refl
str_lt_irrefl (a ∷ x) = ground (arith, str_lt_irrefl x)

pub str_lt_trans : (x y z : Str) → str_lt x y ≡ true → str_lt y z ≡ true → str_lt x z ≡ true
unfolding str_lt
str_lt_trans [] [] z p q = cc
str_lt_trans [] (b ∷ y) [] p q = cc
str_lt_trans [] (b ∷ y) (c ∷ z) p q = refl
str_lt_trans (a ∷ x) [] z p q = cc
str_lt_trans (a ∷ x) (b ∷ y) [] p q = cc
str_lt_trans (a ∷ x) (b ∷ y) (c ∷ z) p q = ground (arith, str_lt_trans x y z)

-- Of two strings neither of which is below the other, both are one.
pub str_lt_total : (x y : Str) → str_lt x y ≡ false → str_lt y x ≡ false → x ≡ y
unfolding str_lt
str_lt_total [] [] p q = refl
str_lt_total [] (b ∷ y) p q = cc
str_lt_total (a ∷ x) [] p q = cc
str_lt_total (a ∷ x) (b ∷ y) p q = ground (arith, str_lt_total x y)

-- `strings.HasPrefix(s, prefix)`
unfoldable pub has_prefix : Str → Str → Bool
has_prefix s [] = true
has_prefix [] (p ∷ ps) = false
has_prefix (c ∷ s) (p ∷ ps) = c == p && has_prefix s ps

unfoldable pub is_empty : Str → Bool
is_empty [] = true
is_empty (c ∷ s) = false
