-- ===== src/Httpx/Middleware/Stack.antt =====
-- What the middleware of internal/httpx answers around the routes of a service.
use quorum_market.Common.{
  ℕ, ◌≡◌, ◌≢◌, refl, true, Option, none, some, [], ℤ, Str, insert, Assoc, arith, Bool-cases,
}
use quorum_market.Gateway.{header_of}
use quorum_market.Httpx.Middleware.{
  Request, Response, Ending, returned, aborted, panicked, Handler, chain, status_or, write_json,
  recoverer, recovered, request_id, id_for_request, request_id_header, valid_request_id, Admission,
  bypassed, admitted, shed, admit, limiter, limited, build,
}

-- The status once a handler has ended like this.
abbrev pub ended_status : Ending × Response → Option ℕ
ended_status (returned, w) = w.status
ended_status (aborted, w) = w.status
ended_status (panicked, w) = status_or 500 w.status

-- The status of a request that is admitted or not, whose handler ends like this.
abbrev pub answer_status : Admission → Ending × Response → Option ℕ
answer_status shed out = some 503
answer_status bypassed out = ended_status out
answer_status admitted out = ended_status out

-- The response that the routes are given.
abbrev pub opened : Str → Response
opened id = record { headers = insert request_id_header id []; status = none; body = [] }

abbrev pub blank : Response
blank = record { headers = []; status = none; body = [] }

id_for_request-valid :
    (fresh : Str) (headers : Assoc Str)
    → valid_request_id fresh ≡ true
    → valid_request_id (id_for_request fresh headers) ≡ true
unfolding id_for_request
id_for_request-valid fresh headers h =
    ground (arith, h, Bool-cases (valid_request_id (header_of request_id_header headers)))

recovered_answers :
    (r : Request) (out : Ending × Response)
    → ((recovered r out).0 ≢ panicked) × ((recovered r out).1.status ≡ ended_status out)
unfolding recovered write_json
recovered_answers r (returned, w) = (λ e. cc, refl)
recovered_answers r (aborted, w) = (λ e. cc, refl)
recovered_answers r (panicked, w) = (λ e. cc, go w.status refl)
  where
    go :
        (sent : Option ℕ)
        → w.status ≡ sent
        → (recovered r (panicked, w)).1.status ≡ status_or 500 w.status
    go none e = ground (arith, e)
    go (some code) e = ground (arith, e)

limited_answers :
    (r q : Request) (id : Str) (a : Admission) (next : Handler)
    → ((recovered r (limited a next q (opened id))).0 ≢ panicked)
      × ((recovered r (limited a next q (opened id))).1.status
          ≡ answer_status a (next q (opened id)))
unfolding limited
limited_answers r q id bypassed next = recovered_answers r (next q (opened id))
limited_answers r q id admitted next = recovered_answers r (next q (opened id))
limited_answers r q id shed next = recovered_answers r _

-- Around any routes and for any request, the middleware hands the routes a request id of at most 64
-- safe characters, if the id that is minted is one; no panic of the routes leaves the stack but the one
-- that aborts a response; and the status is 503 for a request that is shed, the status that the routes
-- sent for any other, and 500 where they panicked before they sent one.
pub stack_answers :
    (limit : ℤ) (taken : ℕ) (fresh : Str) (routes : Handler) (r : Request)
    → valid_request_id fresh ≡ true
    → let id = id_for_request fresh r.headers in
      let out = build limit taken fresh routes r blank in
      (valid_request_id id ≡ true)
      × ((out.0 ≢ panicked)
          × (out.1.status
              ≡ answer_status
                  (admit limit taken r.path)
                  (routes (record r { request_id = id }) (opened id))))
unfolding build chain recoverer request_id limiter
stack_answers limit taken fresh routes r valid =
    let id = id_for_request fresh r.headers in
    (
      id_for_request-valid fresh r.headers valid,
      limited_answers r (record r { request_id = id }) id (admit limit taken r.path) routes,
    )
