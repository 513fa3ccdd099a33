-- ===== src/Httpx/Client.antt =====
-- internal/httpx/client.go: one call of a service, with its retries behind a circuit breaker. What
-- the network does at each attempt is an argument, as are the times at which the breaker reads its
-- clock and the random numbers of the backoff. Time-outs are errors of the transport.
pub mod Attempts
pub mod Backoff
pub mod Spared
use quorum_market.Common.{
  ℕ, zero, suc, ◌+◌, ◌-◌, ◌*◌, ◌%◌, ◌^◌, Bool, true, false, not, ◌||◌, ◌&&◌, Option, none, some, ℤ,
  pos, pos_part, leb_ℤ, leb, ltb, ◌==◌, if◌then◌else◌, Str, bytes, str_eq,
}
use quorum_market.Httpx.Errors.{Error, errorf, wrap, plain}
use quorum_market.Httpx.Breaker.{
  Breaker, BreakerConfig, new_breaker, allow, record_outcome, counts_as_unavailable,
}

pub record ClientConfig : Type 0 where
  pub max_attempts : ℤ  -- int
  pub retry_base_delay : ℤ  -- time.Duration
  pub retry_max_delay : ℤ  -- time.Duration
  pub breaker_config : BreakerConfig
  pub disable_breaker : Bool

unfoldable pub client_defaults : ClientConfig → ClientConfig
client_defaults c = record c {
  max_attempts = if leb_ℤ c.max_attempts (pos 0) then pos 3 else c.max_attempts;
  retry_base_delay = if leb_ℤ c.retry_base_delay (pos 0) then pos 50000000 else c.retry_base_delay;
  retry_max_delay = if leb_ℤ c.retry_max_delay (pos 0) then pos 1000000000 else c.retry_max_delay;
}

-- The numbers are positive once the defaults are in place.
pub record Client : Type 0 where
  pub max_attempts : ℕ
  pub base_delay : ℕ
  pub max_delay : ℕ
  pub breaker : Option Breaker

unfoldable pub new_client : ClientConfig → Client
unfolding client_defaults
new_client cfg =
    let c = client_defaults cfg in
    record {
      max_attempts = pos_part c.max_attempts;
      base_delay = pos_part c.retry_base_delay;
      max_delay = pos_part c.retry_max_delay;
      breaker = if c.disable_breaker then none else some (new_breaker c.breaker_config);
    }

unfoldable pub is_idempotent : Str → Bool
is_idempotent method =
    str_eq method (bytes "GET")
    || (str_eq method (bytes "HEAD")
        || (str_eq method (bytes "PUT")
            || (str_eq method (bytes "DELETE") || str_eq method (bytes "OPTIONS"))))

unfoldable pub retryable : ℕ → Bool → Bool
retryable status failed = if status == 0 && failed then true else leb 500 status || status == 429

-- What happens to one request: it cannot be built, the transport fails, or the server answers with
-- a status and a body, which may fail to decode.
pub data Exchange : Type 0 where
  unbuilt : Error → Exchange
  unsent : Error → Exchange
  answered : (status : ℕ) (decoding : Option Error) → Exchange

-- `attempt`: the status and the error; `wanted` is whether the caller wants the body.
unfoldable pub attempt : Bool → Exchange → ℕ × Option Error
attempt wanted (unbuilt e) = (0, some (wrap 500 e))
attempt wanted (unsent e) = (0, some (wrap 503 e))
attempt wanted (answered status decoding) =
    if ltb status 200 || ltb 299 status
    then (status, some (errorf status))
    else if not wanted || status == 204
    then (status, none)
    else elim decoding [ some e ↦ (status, some (wrap 502 e)) | none ↦ (status, none) ]

-- The ceiling of `backoff`. A shift of an int64 keeps the low 64 bits, of which the first is the sign.
unfoldable pub ceiling : Client → ℕ → ℕ
ceiling c n =
    let shifted = (c.base_delay * 2 ^ (n - 1)) % 2 ^ 64 in
    let is_negative = leb (2 ^ 63) shifted in
    if is_negative || (ltb c.max_delay shifted || shifted == 0) then c.max_delay else shifted

-- `backoff`, where `draw n` is what `rand.Int64N` draws below `n`.
unfoldable pub backoff : (ℕ → ℕ) → Client → ℕ → ℕ
unfolding ceiling
backoff draw c n = draw (ceiling c n + 1)

-- What the world does around one attempt: the context's error before it, the times at which the
-- breaker is asked and told, the exchange, and the error of a wait that is cut short.
pub record Try : Type 0 where
  pub context_error : Option Error
  pub asked_at : ℕ
  pub exchange : Exchange
  pub told_at : ℕ
  pub wait_error : Option Error

-- What `do` returns, the breaker after it, and how many requests were sent.
pub record Done : Type 0 where
  pub error : Option Error
  pub breaker : Option Breaker
  pub sent : ℕ

unfoldable pub allow_call : ℕ → Option Breaker → Bool × Option Breaker
allow_call now none = (true, none)
allow_call now (some b) = let (allowed, b') = allow now b in (allowed, some b')

-- The breaker is told an error for an unavailable dependency only.
unfoldable pub record_call : ℕ → ℕ → Bool → Option Breaker → Option Breaker
record_call now status failed none = none
record_call now status failed (some b) =
    some (record_outcome now (counts_as_unavailable status failed) b)

abbrev pub is_some_error : Option Error → Bool
is_some_error none = false
is_some_error (some e) = true

abbrev pub one_more : Done → Done
one_more d = record d { sent = suc d.sent }

-- The end of one round of the loop, where `left` rounds may follow and `rest` is what they do.
after_attempt : ℕ → ℕ → Option Error → Option Error → Option Breaker → Done → Done
after_attempt left status none wait b rest = record { error = none; breaker = b; sent = 1 }
after_attempt left status (some e) wait b rest =
    if left == 0 || not (retryable status true)
    then record { error = some e; breaker = b; sent = 1 }
    else elim wait [
      | some w ↦ record { error = some (wrap 503 w); breaker = b; sent = 1 }
      | none ↦ one_more rest
    ]

-- The loop of `do`, with the number of rounds left and of the next attempt.
unfoldable pub do_loop : Bool → (ℕ → Try) → ℕ → ℕ → Option Error → Option Breaker → Done
unfolding after_attempt allow_call record_call
do_loop wanted tries zero n last b = record { error = last; breaker = b; sent = 0 }
do_loop wanted tries (suc left) n last b =
    let t = tries n in
    let (allowed, asked) = allow_call t.asked_at b in
    let (status, e) = attempt wanted t.exchange in
    let told = record_call t.told_at status (is_some_error e) asked in
    let rest = do_loop wanted tries left (suc n) e told in
    elim t.context_error [
      | some x ↦ record { error = some (wrap 503 x); breaker = b; sent = 0 }
      | none ↦
          if not allowed
          then record { error = some (wrap 503 plain); breaker = asked; sent = 0 }
          else after_attempt left status e t.wait_error told rest
    ]

-- `do`; `encoding` is the error of encoding the body.
unfoldable pub call : Client → Str → Option Error → Bool → (ℕ → Try) → Done
unfolding do_loop is_idempotent
call c method encoding wanted tries = elim encoding [
  | some e ↦ record { error = some (wrap 500 e); breaker = c.breaker; sent = 0 }
  | none ↦
      let attempts = if is_idempotent method then c.max_attempts else 1 in
      do_loop wanted tries attempts 1 none c.breaker
]

abbrev pub get_json : Client → Bool → (ℕ → Try) → Done
get_json c wanted tries = call c (bytes "GET") none wanted tries

abbrev pub put_json : Client → Option Error → Bool → (ℕ → Try) → Done
put_json c encoding wanted tries = call c (bytes "PUT") encoding wanted tries

abbrev pub post_json : Client → Option Error → Bool → (ℕ → Try) → Done
post_json c encoding wanted tries = call c (bytes "POST") encoding wanted tries
