-- ===== src/Httpx/Client/Attempts.antt =====
-- How often internal/httpx/client.go sends a request, and what it returns.
use quorum_market.Common.{
  ℕ, zero, suc, ◌+◌, ◌-◌, ◌≤◌, ◌<◌, ◌≡◌, refl, sym, ap, subst, ◌∙◌, inl, inr, ◌⊎◌, Bool, true,
  false, Option, none, some, arith, if◌then◌else◌, Str, str_eq, Bool-cases, Option-cases,
}
use quorum_market.Httpx.Errors.{Error, errorf}
use quorum_market.Httpx.Breaker.{Breaker}
use quorum_market.Httpx.Client.{
  Client, Try, Done, answered, attempt, retryable, is_idempotent, allow_call, record_call,
  is_some_error, after_attempt, do_loop, call, post_json,
}

after_attempt-sent :
    (left status k : ℕ) (e wait : Option Error) (b : Option Breaker) (rest : Done)
    → rest.sent ≤ left
    → (after_attempt left status e wait b rest).sent ≤ suc left
unfolding after_attempt
after_attempt-sent left status k none wait b rest h = omega arith
after_attempt-sent left status k (some e) none b rest h = ground arith
after_attempt-sent left status k (some e) (some w) b rest h = ground arith

do_loop-sent :
    (wanted : Bool) (tries : ℕ → Try) (left n : ℕ) (last : Option Error) (b : Option Breaker)
    → (do_loop wanted tries left n last b).sent ≤ left
unfolding do_loop
do_loop-sent wanted tries zero n last b = omega arith
do_loop-sent wanted tries (suc left) n last b =
    let t = tries n in
    let asked = (allow_call t.asked_at b).1 in
    let (status, e) = attempt wanted t.exchange in
    let told = record_call t.told_at status (is_some_error e) asked in
    let rest = do_loop wanted tries left (suc n) e told in
    ground (
      arith,
      after_attempt-sent left status n e t.wait_error told rest
          (do_loop-sent wanted tries left (suc n) e told),
    )

-- A POST is sent once at most, whatever goes wrong; any other request at most as often as the
-- client is configured to try.
pub call-sent :
    (c : Client) (method : Str) (encoding : Option Error) (wanted : Bool) (tries : ℕ → Try)
    → ((post_json c encoding wanted tries).sent ≤ 1)
      × ((call c method encoding wanted tries).sent
          ≤ (if is_idempotent method then c.max_attempts else 1))
unfolding call str_eq
call-sent c method none wanted tries = (
  do_loop-sent wanted tries 1 1 none c.breaker,
  do_loop-sent wanted tries (if is_idempotent method then c.max_attempts else 1) 1 none c.breaker,
)
call-sent c method (some e) wanted tries = (omega arith, omega arith)

abbrev attempt_of : Bool → (ℕ → Try) → ℕ → ℕ × Option Error
attempt_of wanted tries n = attempt wanted (tries n).exchange

after_attempt_ok :
    (left status : ℕ) (e wait : Option Error) (b : Option Breaker) (rest : Done)
    → (after_attempt left status e wait b rest).error ≡ none
    → ((e ≡ none) × ((after_attempt left status e wait b rest).sent ≡ 1))
      ⊎ ((0 < left)
          × (rest.error ≡ none)
          × ((after_attempt left status e wait b rest).sent ≡ suc rest.sent))
unfolding after_attempt
after_attempt_ok left status none wait b rest h = inl (refl, refl)
after_attempt_ok left status (some e) none b rest h = ground arith
after_attempt_ok left status (some e) (some w) b rest h = ground arith

-- A round whose context is alive and whose breaker lets it through.
do_loop_round :
    (wanted : Bool) (tries : ℕ → Try) (left n : ℕ) (last : Option Error) (b : Option Breaker)
    → (tries n).context_error ≡ none
    → (allow_call (tries n).asked_at b).0 ≡ true
    → let t = tries n in
      let (status, e) = attempt wanted t.exchange in
      let told = record_call t.told_at status (is_some_error e) (allow_call t.asked_at b).1 in
      do_loop wanted tries (suc left) n last b
      ≡ after_attempt left status e t.wait_error told (do_loop wanted tries left (suc n) e told)
unfolding do_loop
do_loop_round wanted tries left n last b fine allowed = ground (arith, fine, allowed)

after_attempt_more :
    (left status : ℕ) (e wait : Option Error) (b : Option Breaker) (rest : Done)
    → (after_attempt left status e wait b rest).sent ≤ suc rest.sent
unfolding after_attempt
after_attempt_more left status none wait b rest = omega arith
after_attempt_more left status (some e) none b rest = ground arith
after_attempt_more left status (some e) (some w) b rest = ground arith

-- A round sends one request at most.
pub do_loop_more :
    (wanted : Bool) (tries : ℕ → Try) (left n : ℕ) (last : Option Error) (b : Option Breaker)
    → let t = tries n in
      let (status, e) = attempt wanted t.exchange in
      let told = record_call t.told_at status (is_some_error e) (allow_call t.asked_at b).1 in
      (do_loop wanted tries (suc left) n last b).sent
      ≤ suc (do_loop wanted tries left (suc n) e told).sent
unfolding do_loop
do_loop_more wanted tries left n last b =
    let t = tries n in
    let (status, e) = attempt wanted t.exchange in
    let told = record_call t.told_at status (is_some_error e) (allow_call t.asked_at b).1 in
    ground (
      arith,
      after_attempt_more left status e t.wait_error told (do_loop wanted tries left (suc n) e told),
    )

do_loop_ok :
    (wanted : Bool) (tries : ℕ → Try) (left n : ℕ) (last : Option Error) (b : Option Breaker)
    → 0 < left
    → (do_loop wanted tries left n last b).error ≡ none
    → let s = (do_loop wanted tries left n last b).sent in
      (0 < s) × ((attempt_of wanted tries (n + s - 1)).1 ≡ none)
unfolding do_loop
do_loop_ok wanted tries zero n last b p h = absurd (omega arith)
do_loop_ok wanted tries (suc left) n last b p h =
    let t = tries n in
    let asked = (allow_call t.asked_at b).1 in
    let (status, e) = attempt wanted t.exchange in
    let told = record_call t.told_at status (is_some_error e) asked in
    let rest = do_loop wanted tries left (suc n) e told in
    elim (Option-cases t.context_error) [
      | inr (x, ended) ↦ absurd (ground (arith, ended))
      | inl fine ↦ elim (Bool-cases (allow_call t.asked_at b).0) [
        | inr refused ↦ absurd (ground (arith, fine, refused))
        | inl allowed ↦
            let same : do_loop wanted tries (suc left) n last b
                ≡ after_attempt left status e t.wait_error told rest =
              do_loop_round wanted tries left n last b fine allowed in
            subst (λ d. (0 < d.sent) × ((attempt_of wanted tries (n + d.sent - 1)).1 ≡ none))
              (sym same)
              (elim (after_attempt_ok left status e t.wait_error told rest
                (ap (λ d. d.error) (sym same) ∙ h)) [
                  | inl (good, one) ↦ (
                    omega (arith, one),
                    let k : n + (after_attempt left status e t.wait_error told rest).sent - 1 ≡ n =
                          omega (arith, one) in
                        rw k good,
                  )
                  | inr (more, later, count) ↦
                      let ih = do_loop_ok wanted tries left (suc n) e told more later in
                      (
                        omega (arith, count),
                        let k : n + (after_attempt left status e t.wait_error told rest).sent - 1
                                ≡ suc n + rest.sent - 1 =
                              omega (arith, count) in
                            rw k ih.1,
                      )
                ])
      ]
    ]

-- A call that returns no error has sent at least one request, and the last one that it sent was
-- answered with success.
pub call_ok_answered :
    (c : Client) (method : Str) (encoding : Option Error) (wanted : Bool) (tries : ℕ → Try)
    → 0 < c.max_attempts
    → (call c method encoding wanted tries).error ≡ none
    → let s = (call c method encoding wanted tries).sent in
      (0 < s) × ((attempt wanted (tries s).exchange).1 ≡ none)
unfolding call
call_ok_answered c method (some e) wanted tries p h = absurd (cc)
call_ok_answered c method none wanted tries p h =
    let attempts = if is_idempotent method then c.max_attempts else 1 in
    let d = do_loop wanted tries attempts 1 none c.breaker in
    let (some_sent, good) = do_loop_ok wanted tries attempts 1 none c.breaker (ground arith) h in
    (
      some_sent,
      subst (λ k. (attempt wanted (tries k).exchange).1 ≡ none)
          (let k : 1 + d.sent - 1 ≡ d.sent = omega arith in k) good,
    )

-- A server's considered answer, one that is no success and asks for no retry, is not asked for
-- again: the call sends one request and returns the answer's status.
pub considered_answer_is_final :
    (c : Client) (method : Str) (wanted : Bool) (tries : ℕ → Try) (status : ℕ) (d : Option Error)
    → 0 < c.max_attempts
    → (tries 1).context_error ≡ none
    → (allow_call (tries 1).asked_at c.breaker).0 ≡ true
    → (tries 1).exchange ≡ answered status d
    → 300 ≤ status
    → retryable status true ≡ false
    → let out = call c method none wanted tries in
      (out.error ≡ some (errorf status)) × (out.sent ≡ 1)
unfolding call
considered_answer_is_final c method wanted tries status d p fine allowed answer bad final =
    let attempts = if is_idempotent method then c.max_attempts else 1 in
    let left = attempts - 1 in
    let n : attempts ≡ suc left = ground arith in
    let e : attempt wanted (tries 1).exchange ≡ (status, some (errorf status)) =
      rw answer (unfold attempt in ground arith) in
    let told =
      record_call (tries 1).told_at status true (allow_call (tries 1).asked_at c.breaker).1 in
    rw (n, do_loop_round wanted tries left 1 none c.breaker fine allowed, e)
      (let end : after_attempt left status (some (errorf status)) (tries 1).wait_error told
              (do_loop wanted tries left 2 (some (errorf status)) told)
            ≡ record { error = some (errorf status); breaker = told; sent = 1 } =
          unfold after_attempt in ground arith in
        rw end (refl, refl))
