-- ===== src/Common/Distinct.antt =====
-- Association lists in which every key stands once, and what dropping some of their pairs does.
use mathlib.Core.Path.{◌≡◌, refl, ap, subst₂}
use mathlib.Core.Logic.{inl, inr}
use mathlib.Core.Bool.{Bool}
use mathlib.Core.List.{[], ◌∷◌}
use mathlib.Core.Option.{Option, none, some}
use native.Mathlib.Omega.{arith}
use quorum_market.Common.Tests.{if◌then◌else◌, Bool-cases}
use quorum_market.Common.Text.{Str, str_eq, str_eq_iff}
use quorum_market.Common.Maps.{Assoc, lookup, insert, lookup-insert}

module _ {ℓ} {V : Type ℓ} where
  -- Every key stands once.
  abbrev pub IsDistinct : Assoc V → Type ℓ
  IsDistinct [] = Unit
  IsDistinct ((k, v) ∷ m) = (lookup k m ≡ none) × IsDistinct m

  -- Every pair passes.
  abbrev pub AllPairs {κ} : (Str → V → Type κ) → Assoc V → Type κ
  AllPairs P [] = Unit
  AllPairs P ((k, v) ∷ m) = P k v × AllPairs P m

  pub insert-IsDistinct : (k : Str) (v : V) (m : Assoc V) → IsDistinct m → IsDistinct (insert k v m)
  unfolding insert lookup
  insert-IsDistinct k v [] d = (refl, tt)
  insert-IsDistinct k v ((j, w) ∷ m) d = elim (Bool-cases (str_eq j k)) [
    | inl same ↦ rw same (ground (arith, str_eq_iff j k), d.1)
    | inr other ↦ rw other (
      ground (arith, lookup-insert k j v m, str_eq_iff j k, str_eq_iff k j),
      insert-IsDistinct k v m d.1,
    )
  ]

  pub insert-AllPairs {κ} :
      (P : Str → V → Type κ) (k : Str) (v : V) (m : Assoc V)
      → P k v
      → AllPairs P m
      → AllPairs P (insert k v m)
  unfolding insert
  insert-AllPairs P k v [] p d = (p, tt)
  insert-AllPairs P k v ((j, w) ∷ m) p d = elim (Bool-cases (str_eq j k)) [
    | inl same ↦ rw same (p, d.1)
    | inr other ↦ rw other (d.0, insert-AllPairs P k v m p d.1)
  ]

  pub lookup-AllPairs {κ} :
      (P : Str → V → Type κ) (k : Str) (v : V) (m : Assoc V)
      → AllPairs P m
      → lookup k m ≡ some v
      → P k v
  unfolding lookup
  lookup-AllPairs P k v [] d e = cc
  lookup-AllPairs P k v ((j, w) ∷ m) d e = elim (Bool-cases (str_eq j k)) [
    | inl same ↦
        let h : some w ≡ some v = rw same at e in
        let q : w ≡ v = cc in subst₂ P ((str_eq_iff j k).0 same) q d.0
    | inr other ↦ lookup-AllPairs P k v m d.1 (rw other at e)
  ]

  -- The pairs whose value passes a test.
  unfoldable pub keep : (V → Bool) → Assoc V → Assoc V
  keep p [] = []
  keep p ((k, v) ∷ m) = let rest = keep p m in if p v then (k, v) ∷ rest else rest

  abbrev pub keep_value : (V → Bool) → Option V → Option V
  keep_value p none = none
  keep_value p (some v) = if p v then some v else none

  pub lookup-keep :
      (p : V → Bool) (k : Str) (m : Assoc V)
      → IsDistinct m
      → lookup k (keep p m) ≡ keep_value p (lookup k m)
  unfolding lookup keep
  lookup-keep p k [] d = refl
  lookup-keep p k ((j, v) ∷ m) d = ground (arith, lookup-keep p k m, str_eq_iff j k)

  pub keep-IsDistinct : (p : V → Bool) (m : Assoc V) → IsDistinct m → IsDistinct (keep p m)
  unfolding keep
  keep-IsDistinct p [] d = tt
  keep-IsDistinct p ((j, v) ∷ m) d = elim (Bool-cases (p v)) [
    | inl kept ↦
        rw kept (rw (lookup-keep p j m d.1) (ap (keep_value p) d.0), keep-IsDistinct p m d.1)
    | inr gone ↦ rw gone (keep-IsDistinct p m d.1)
  ]

  pub keep-AllPairs {κ} :
      (P : Str → V → Type κ) (p : V → Bool) (m : Assoc V) → AllPairs P m → AllPairs P (keep p m)
  unfolding keep
  keep-AllPairs P p [] d = tt
  keep-AllPairs P p ((j, v) ∷ m) d = elim (Bool-cases (p v)) [
    | inl kept ↦ rw kept (d.0, keep-AllPairs P p m d.1)
    | inr gone ↦ rw gone (keep-AllPairs P p m d.1)
  ]
