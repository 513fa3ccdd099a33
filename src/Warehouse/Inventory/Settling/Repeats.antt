-- ===== src/Warehouse/Inventory/Settling/Repeats.antt =====
-- `Release` of internal/warehouse/inventory.go, called again.
use quorum_market.Common.{
  ◌≡◌, refl, false, some, Str, str_eq_refl, lookup, insert, lookup-insert, Bool-cases, Option-cases,
  inl, inr,
}
use quorum_market.Warehouse.Inventory.{Inventory, is_reserved, give_back, released}
use quorum_market.Warehouse.Inventory.Settling.{
  release, release_mark, release_found, release_rest, set_state,
}

-- The second call gives nothing back.
pub release-release :
    (id : Str) (inv : Inventory) → release id (release id inv).1 ≡ (false, (release id inv).1)
unfolding release release_mark release_found release_rest set_state give_back
release-release id inv = elim (Option-cases (lookup id inv.reservations)) [
  | inl unknown ↦ rw (unknown, unknown) refl
  | inr (r, found) ↦ elim (Bool-cases (is_reserved r.state)) [
    | inr settled ↦ rw (found, settled, found, settled) refl
    | inl held ↦
        let r' = record r { state = released } in
        let again : lookup id (insert id r' inv.reservations) ≡ some r' =
          rw (lookup-insert, str_eq_refl) refl in
        rw (found, held, again) refl
  ]
]
