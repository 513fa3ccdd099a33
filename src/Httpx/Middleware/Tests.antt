-- ===== src/Httpx/Middleware/Tests.antt =====
-- internal/httpx/middleware.go on concrete inputs.
use quorum_market.Common.{◌≡◌, ◌≢◌, ◌≤◌, str_eq, refl, true, [], ◌∷◌, pos, count, Str, bytes}
use quorum_market.Httpx.Middleware.{
  Request, Handler, panicked, admitted, admit, is_probe, ends_with, id_for_request,
  valid_request_id, all_id_chars, build,
}
use quorum_market.Httpx.Middleware.Slots.{
  Server, Run, start, step, arrives, ends, holds_slot, slots_are_counted,
}
use quorum_market.Httpx.Middleware.Stack.{answer_status, opened, blank, stack_answers}

abbrev path : Str
path = bytes "/orders"

abbrev idle : Server
idle = record { in_flight = []; taken = 0 }

abbrev busy : Server
busy = record { in_flight = admitted ∷ []; taken = 1 }

-- With one slot, the second of two requests is shed; then the first ends and a third arrives.
requests : Run (pos 1) idle busy
unfolding admit is_probe ends_with str_eq
requests =
    step (step (step (step start (arrives _ path)) (arrives _ path)) (ends [] [] admitted 1))
      (arrives idle path)

slots_are_counted_example :
    (1 ≡ count holds_slot busy.in_flight) × (count holds_slot busy.in_flight ≤ 1)
slots_are_counted_example = slots_are_counted (pos 1) idle busy refl refl requests

-- Routes that panic, and a request whose id is not safe.
abbrev panics : Handler
panics r w = (panicked, w)

abbrev request : Request
request = record {
  path = path;
  headers = (bytes "X-Request-Id", bytes "a b") ∷ [];
  remote_addr = [];
  request_id = [];
}

abbrev minted : Str
minted = bytes "req-1"

stack_answers_example :
    let id = id_for_request minted request.headers in
    let out = build (pos 1) 0 minted panics request blank in
    (valid_request_id id ≡ true)
    × ((out.0 ≢ panicked)
        × (out.1.status
            ≡ answer_status
                (admit (pos 1) 0 path)
                (panics (record request { request_id = id }) (opened id))))
unfolding valid_request_id all_id_chars
stack_answers_example = stack_answers (pos 1) 0 minted panics request refl
