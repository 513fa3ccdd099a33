-- ===== src/Httpx/Middleware.antt =====
-- internal/httpx/middleware.go, router.go and respond.go: the middleware around the routes of a service.
-- A handler maps a request and the response so far to how it ends and the response after it; logs and
-- metrics are left out. As net/http has it, the first status is the response's.
pub mod Slots
pub mod Stack
mod Tests
use quorum_market.Common.{
  ℕ, zero, suc, ◌+◌, ◌-◌, Bool, true, false, not, ◌&&◌, ◌||◌, Option, none, some, List, [], ◌∷◌,
  ◌++◌, ℤ, pos, pos_part, leb_ℤ, ltb, leb, ◌==◌, if◌then◌else◌, length, Str, bytes, is_empty,
  str_eq, Assoc, insert,
}
use quorum_market.Httpx.Errors.{Error, errorf, status_of}
use quorum_market.Gateway.{header_of}

pub record Request : Type 0 where
  pub path : Str
  pub headers : Assoc Str
  pub remote_addr : Str
  pub request_id : Str  -- that of the context

-- `status` is `none` until a status is sent.
pub record Response : Type 0 where
  pub headers : Assoc Str
  pub status : Option ℕ
  pub body : Str

-- How a handler ends: it returns, panics with `http.ErrAbortHandler`, or panics with anything else.
pub data Ending : Type 0 where
  returned aborted panicked : Ending

abbrev pub Handler : Type 0
Handler = Request → Response → Ending × Response

abbrev pub Middleware : Type 0
Middleware = Handler → Handler

-- `Chain`
unfoldable pub chain : Handler → List Middleware → Handler
chain h [] = h
chain h (m ∷ ms) = m (chain h ms)

-- The status that a response has, or this one.
abbrev pub status_or : ℕ → Option ℕ → Option ℕ
status_or code none = some code
status_or code (some sent) = some sent

abbrev pub is_sent : Option ℕ → Bool
is_sent none = false
is_sent (some code) = true

-- `WriteHeader` and `Write` of a responseRecorder
abbrev pub write_header : ℕ → Response → Response
write_header code w = record w { status = status_or code w.status }

abbrev pub write : Str → Response → Response
write b w = record w { status = status_or 200 w.status; body = w.body ++ b }

-- `w.Header().Set`, which has no effect once the status has been sent
abbrev pub set_header : Str → Str → Response → Response
set_header k v w = if is_sent w.status then w else record w { headers = insert k v w.headers }

-- `JSON`, of the encoded value
unfoldable pub write_json : ℕ → Str → Response → Response
write_json status body w =
    write body
      (write_header status (set_header (bytes "Content-Type") (bytes "application/json") w))

-- The encoded `errorBody`, whose message is left out.
abbrev error_body : Str → Str
error_body request_id = bytes "{\"requestId\":\"" ++ (request_id ++ bytes "\"}")

-- `WriteError`
unfoldable pub write_error : Error → Request → Response → Response
unfolding write_json
write_error e r w = write_json (status_of (some e)) (error_body r.request_id) w

-- `H`, which adapts a handler that returns an error
unfoldable pub adapt : (Request → Response → Option Error × Response) → Handler
unfolding write_error
adapt h r w = let (e, w') = h r w in (returned, elim e [ none ↦ w' | some x ↦ write_error x r w' ])

recovered : Request → Ending × Response → Ending × Response
unfolding write_json
recovered r (returned, w) = (returned, w)
recovered r (aborted, w) = (aborted, w)
recovered r (panicked, w) = (returned, write_json 500 (error_body r.request_id) w)

unfoldable pub recoverer : Middleware
unfolding recovered
recoverer next r w = recovered r (next r w)

abbrev is_id_char : ℕ → Bool
is_id_char c =
    (leb b'a' c && leb c b'z')
    || ((leb b'A' c && leb c b'Z') || ((leb b'0' c && leb c b'9') || (c == b'-' || c == b'_')))

unfoldable pub all_id_chars : Str → Bool
all_id_chars [] = true
all_id_chars (c ∷ s) = is_id_char c && all_id_chars s

unfoldable pub valid_request_id : Str → Bool
unfolding all_id_chars
valid_request_id id = not (length id == 0 || ltb 64 (length id)) && all_id_chars id

abbrev pub request_id_header : Str
request_id_header = bytes "X-Request-Id"

-- The id that a request goes by; `fresh` is what `NewRequestID` mints.
unfoldable pub id_for_request : Str → Assoc Str → Str
id_for_request fresh headers =
    let id = header_of request_id_header headers in if valid_request_id id then id else fresh

-- `RequestID`
unfoldable pub request_id : Str → Middleware
unfolding id_for_request
request_id fresh next r w =
    let id = id_for_request fresh r.headers in
    next (record r { request_id = id }) (set_header request_id_header id w)

ends_with : Str → Str → Bool
ends_with suffix [] = str_eq suffix []
ends_with suffix (c ∷ s) = let rest = ends_with suffix s in str_eq suffix (c ∷ s) || rest

unfoldable pub is_probe : Str → Bool
unfolding ends_with
is_probe path = ends_with (bytes "/health") path

-- What a limiter does with a request: it lets it by, gives it a slot, or sheds it.
pub data Admission : Type 0 where
  bypassed admitted shed : Admission

-- `Limiter`, where `taken` slots are taken; a limit that is not positive sheds nothing
unfoldable pub admit : ℤ → ℕ → Str → Admission
admit limit taken path =
    if leb_ℤ limit (pos 0)
    then bypassed
    else if is_probe path
    then bypassed
    else if ltb taken (pos_part limit)
    then admitted
    else shed

limited : Admission → Middleware
unfolding write_json
limited bypassed next r w = next r w
limited admitted next r w = next r w
limited shed next r w = (
  returned,
  write_json 503 (error_body r.request_id) (set_header (bytes "Retry-After") (bytes "1") w),
)

unfoldable pub limiter : ℤ → ℕ → Middleware
unfolding limited
limiter limit taken next r w = limited (admit limit taken r.path) next r w

-- A ResponseWriter behind a responseRecorder: the status is known to be sent once the handler is done.
-- `RequestLogger` and `Instrument` pass the request on and add logs and metrics.
abbrev pub request_logger : Middleware
request_logger next r w = next r w

-- `Build`
unfoldable pub build : ℤ → ℕ → Str → Handler → Handler
unfolding chain recoverer request_id limiter
build limit taken fresh routes =
    chain routes (recoverer ∷ (request_id fresh ∷ (request_logger ∷ (limiter limit taken ∷ []))))
