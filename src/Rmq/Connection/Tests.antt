-- ===== src/Rmq/Connection/Tests.antt =====
-- internal/rmq/conn.go on concrete inputs.
use quorum_market.Common.{◌≡◌, refl, true, none, some, [], ◌∷◌}
use quorum_market.Httpx.Errors.{plain, ok, err}
use quorum_market.Rmq.Connection.{Conn, dial, gone}

second_attempt_connects :
    dial 3 (
      record { cancelled = none; dialled = err plain; cut_short = none }
      ∷ (record { cancelled = none; dialled = ok 7; cut_short = none } ∷ []))
    ≡ ok 7
unfolding dial
second_attempt_connects = refl

abbrev closed_late : Conn
closed_late = record { link = some 1; is_closed = true; phase = gone; open_links = [] }
