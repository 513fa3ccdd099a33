-- ===== src/Common/Sizes.antt =====
-- How many keys a map holds after a write or a deletion.
use Prim.Native.Nat.{suc}
use mathlib.Core.Path.{◌≡◌, refl}
use mathlib.Core.Logic.{inl, inr}
use mathlib.Core.List.{[], ◌∷◌}
use mathlib.Core.Option.{none, some}
use native.Mathlib.Omega.{arith}
use quorum_market.Common.Tests.{Bool-cases}
use quorum_market.Common.Text.{Str, str_eq, str_eq_iff}
use quorum_market.Common.Lists.{length}
use quorum_market.Common.Maps.{Assoc, lookup, insert, delete, lookup-delete}
use quorum_market.Common.Distinct.{IsDistinct}

module _ {ℓ} {V : Type ℓ} where
  pub length-insert_new :
      (k : Str) (v : V) (m : Assoc V) → lookup k m ≡ none → length (insert k v m) ≡ suc (length m)
  unfolding lookup insert
  length-insert_new k v [] h = refl
  length-insert_new k v ((j, w) ∷ m) h = ground (arith, length-insert_new k v m)

  pub length-insert_old :
      (k : Str) (v w : V) (m : Assoc V) → lookup k m ≡ some w → length (insert k v m) ≡ length m
  unfolding lookup insert
  length-insert_old k v w [] h = cc
  length-insert_old k v w ((j, u) ∷ m) h = ground (arith, length-insert_old k v w m)

  pub delete_absent : (k : Str) (m : Assoc V) → lookup k m ≡ none → delete k m ≡ m
  unfolding lookup delete
  delete_absent k [] h = refl
  delete_absent k ((j, u) ∷ m) h = ground (arith, delete_absent k m)

  pub length-delete :
      (k : Str) (w : V) (m : Assoc V)
      → IsDistinct m
      → lookup k m ≡ some w
      → suc (length (delete k m)) ≡ length m
  unfolding lookup delete
  length-delete k w [] d h = cc
  length-delete k w ((j, u) ∷ m) d h =
      ground (arith, length-delete k w m, delete_absent k m, str_eq_iff j k)

  pub delete-IsDistinct : (k : Str) (m : Assoc V) → IsDistinct m → IsDistinct (delete k m)
  unfolding delete
  delete-IsDistinct k [] d = tt
  delete-IsDistinct k ((j, w) ∷ m) d = elim (Bool-cases (str_eq j k)) [
    | inl same ↦ rw same (delete-IsDistinct k m d.1)
    | inr other ↦ rw other (
      ground (arith, lookup-delete k j m, str_eq_iff j k, str_eq_iff k j),
      delete-IsDistinct k m d.1,
    )
  ]
