-- ===== src/Warehouse/Server/Answers.antt =====
-- What a repeated call of internal/warehouse/server.go does.
use quorum_market.Common.{◌≡◌, refl, ap, false, if◌then◌else◌, Str, is_empty, Bool-cases, inl, inr}
use quorum_market.Httpx.Errors.{errorf, ok, err}
use quorum_market.Warehouse.Inventory.{Inventory}
use quorum_market.Warehouse.Inventory.Settling.Repeats.{release-release}
use quorum_market.Warehouse.Server.{handle_release}

-- A release that is sent again changes nothing: it is answered as resolved already, or refused as the
-- first was where it names no reservation.
pub release_is_repeatable :
    (id : Str) (inv : Inventory)
    → let inv' = (handle_release (ok id) inv).1 in
      handle_release (ok id) inv' ≡ (if is_empty id then err (errorf 400) else ok false, inv')
unfolding handle_release
release_is_repeatable id inv = elim (Bool-cases (is_empty id)) [
  | inl nameless ↦ rw nameless refl
  | inr named ↦ rw named (ap (λ p. (ok p.0, p.1)) (release-release id inv))
]
