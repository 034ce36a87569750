-- ===== src/Errors/Breaker/Counters.antt =====
-- The counters of the breaker, and when they open it.
use go_tor.Prelude.{
  ℕ, ◌+◌, ◌≤◌, ◌<◌, ◌≡◌, refl, Bool, true, false, List, [], ◌∷◌, ◌&&◌, All, ◌∙◌, ltb, leb,
  if◌then◌else◌, arith, Bool-cases, inl, inr,
}
use go_tor.Errors.Breaker.{
  closed, open_, CircuitBreakerConfig, CircuitBreaker, new_circuit_breaker, before_request,
  after_request, should_open, Event, begin, finish, reset_event, force_event, step, run, execute,
  refused, ran, breaker_open, is_closed,
}

-- Between two steps: every request that was counted has one result, and a closed breaker has not
-- reached its limits.
pub record IsSound (c : CircuitBreakerConfig) (cb : CircuitBreaker) : Type 0 where
  pub counted : cb.total_requests ≡ cb.failures + cb.successes
  pub closed_below : cb.state ≡ closed → cb.failures < c.max_failures
  pub half_open_below : cb.half_open_requests ≤ c.half_open_max_requests

new-IsSound : (c : CircuitBreakerConfig) → 0 < c.max_failures → IsSound c new_circuit_breaker
unfolding new_circuit_breaker
new-IsSound c h = ground arith

step-IsSound :
    (c : CircuitBreakerConfig) (e : Event) (cb : CircuitBreaker)
    → 0 < c.max_failures
    → IsSound c cb
    → IsSound c (step c e cb)
unfolding step should_open
step-IsSound c (begin now) cb m h = ground arith
step-IsSound c (finish now failed) cb m h = ground arith
step-IsSound c reset_event cb m h = ground arith
step-IsSound c (force_event now) cb m h = ground arith

run-IsSound_from :
    (c : CircuitBreakerConfig) (es : List Event) (cb : CircuitBreaker)
    → 0 < c.max_failures
    → IsSound c cb
    → IsSound c (run c es cb)
unfolding run
run-IsSound_from c [] cb m h = h
run-IsSound_from c (e ∷ es) cb m h = run-IsSound_from c es (step c e cb) m (step-IsSound c e cb m h)

-- Whatever the goroutines do, in any interleaving: the counted requests are the failures and the
-- successes, a closed breaker has fewer failures than its limit, and the requests counted in the
-- half-open state stay within their limit. The failure limit must not be 0.
pub run-IsSound :
    (c : CircuitBreakerConfig) (es : List Event)
    → 0 < c.max_failures
    → IsSound c (run c es new_circuit_breaker)
run-IsSound c es m = run-IsSound_from c es new_circuit_breaker m (new-IsSound c m)

-- How many of the results are failures.
unfoldable pub failures_in : List (ℕ × Bool) → ℕ
failures_in [] = 0
failures_in ((now, failed) ∷ rs) = let n = failures_in rs in if failed then n + 1 else n

-- The results, recorded one after another.
unfoldable pub record_all : CircuitBreakerConfig → List (ℕ × Bool) → CircuitBreaker → CircuitBreaker
record_all c [] cb = cb
record_all c ((now, failed) ∷ rs) cb = record_all c rs (after_request c now failed cb)

open_ignores :
    (c : CircuitBreakerConfig) (now : ℕ) (failed : Bool) (cb : CircuitBreaker)
    → cb.state ≡ open_
    → after_request c now failed cb ≡ cb
unfolding after_request
open_ignores c now failed cb h = ground arith

record_open :
    (c : CircuitBreakerConfig) (rs : List (ℕ × Bool)) (cb : CircuitBreaker)
    → cb.state ≡ open_
    → record_all c rs cb ≡ cb
unfolding record_all
record_open c [] cb h = refl
record_open c ((now, failed) ∷ rs) cb h =
    rw (open_ignores c now failed cb h) (record_open c rs cb h)

closed_step :
    (c : CircuitBreakerConfig) (now : ℕ) (failed : Bool) (cb : CircuitBreaker)
    → ((f n : ℕ) → c.rate_reached f n ≡ false)
    → cb.state ≡ closed
    → let cb' = after_request c now failed cb in
      let f = cb.failures + (if failed then 1 else 0) in
      (cb'.failures ≡ f) × (cb'.state ≡ (if failed && leb c.max_failures f then open_ else closed))
unfolding after_request should_open
closed_step c now failed cb never h =
    ground (arith, never (cb.failures + 1) (cb.total_requests + 1))

-- Where the error rate is never reached, a closed breaker that records any results is closed
-- afterwards exactly if all its failures so far are fewer than the limit: successes in between do
-- not start the count anew.
pub closed_iff_below :
    (c : CircuitBreakerConfig) (rs : List (ℕ × Bool)) (cb : CircuitBreaker)
    → ((f n : ℕ) → c.rate_reached f n ≡ false)
    → cb.state ≡ closed
    → cb.failures < c.max_failures
    → is_closed (record_all c rs cb).state ≡ ltb (cb.failures + failures_in rs) c.max_failures
unfolding record_all failures_in
closed_iff_below c [] cb never h below = rw h (ground arith)
closed_iff_below c ((now, false) ∷ rs) cb never h below =
    let next = after_request c now false cb in
    let (f, st) = closed_step c now false cb never h in
    closed_iff_below c rs next never st (omega (arith, f)) ∙ rw f (ground arith)
closed_iff_below c ((now, true) ∷ rs) cb never h below =
    let next = after_request c now true cb in
    let (f, st) = closed_step c now true cb never h in
    elim (Bool-cases (leb c.max_failures (cb.failures + 1))) [
      | inl full ↦
          let opened : next.state ≡ open_ = st ∙ rw full in
          rw (record_open c rs next opened, opened) (ground arith)
      | inr room ↦
          let still : next.state ≡ closed = st ∙ rw room in
          closed_iff_below c rs next never still (ground (arith, f)) ∙ rw f (ground arith)
    ]

-- Events before the timeout of an open breaker: requests that begin early, and results.
abbrev pub IsEarly : CircuitBreakerConfig → CircuitBreaker → Event → Type 0
IsEarly c cb (begin now) = now < cb.opened_at + c.timeout
IsEarly c cb (finish now failed) = Unit
IsEarly c cb reset_event = ⊥
IsEarly c cb (force_event now) = ⊥

early_step :
    (c : CircuitBreakerConfig) (e : Event) (cb : CircuitBreaker)
    → cb.state ≡ open_
    → IsEarly c cb e
    → step c e cb ≡ cb
unfolding step
early_step c (begin now) cb h early = ground arith
early_step c (finish now failed) cb h early = ground arith
early_step c reset_event cb h early = absurd early
early_step c (force_event now) cb h early = absurd early

-- Until its timeout an open breaker fails fast: no event changes anything of it, whatever requests
-- begin or end, and a request made then is refused without calling the function.
pub open_fails_fast :
    (c : CircuitBreakerConfig) (es : List Event) (cb : CircuitBreaker) (now later : ℕ)
    (failed : Bool)
    → cb.state ≡ open_
    → All (IsEarly c cb) es
    → now < cb.opened_at + c.timeout
    → execute c now later failed (run c es cb) ≡ (cb, refused breaker_open)
unfolding run
open_fails_fast c [] cb now later failed h early soon =
    unfold execute before_request in ground arith
open_fails_fast c (e ∷ es) cb now later failed h early soon =
    rw (early_step c e cb h early.0) (open_fails_fast c es cb now later failed h early.1 soon)

-- Once the timeout has passed, the next request is a probe: the function is called, its success
-- closes the breaker with all counters at 0, and its failure opens it anew from that moment.
pub probe_decides :
    (c : CircuitBreakerConfig) (cb : CircuitBreaker) (now later : ℕ) (failed : Bool)
    → cb.state ≡ open_
    → cb.opened_at + c.timeout ≤ now
    → let r = execute c now later failed cb in
      (r.1 ≡ ran failed)
      × (r.0.state ≡ (if failed then open_ else closed))
      × (r.0.opened_at ≡ (if failed then later else cb.opened_at))
      × (r.0.failures ≡ (if failed then cb.failures else 0))
      × (r.0.total_requests ≡ (if failed then cb.total_requests else 0))
unfolding execute before_request after_request
probe_decides c cb now later failed h late = ground arith
