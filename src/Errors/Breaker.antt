-- ===== src/Errors/Breaker.antt =====
-- pkg/errors/breaker.go: the circuit breaker. Each method runs under the mutex, so the requests of
-- several goroutines are an interleaving of `before_request` and `after_request` steps.
-- `time.Now()` is an argument in nanoseconds, at one reading for each call. The int counters only
-- grow from 0, so a configured limit below 0 acts as 0, and they are numbers here.
pub mod Counters
pub mod HalfOpen
pub mod Trace
pub mod Guarded
mod Tests
use go_tor.Prelude.{
  ℕ, ◌+◌, ◌-◌, Bool, true, false, List, [], ◌∷◌, ◌++◌, ◌||◌, ◌&&◌, Option, none, some, ltb, leb,
  if◌then◌else◌,
}

pub data CircuitState : Type 0 where
  closed open_ half_open : CircuitState

-- `rate_reached f n` is `float64(f)/float64(n) >= FailureThreshold`, and `notifies` says whether
-- `OnStateChange` is set.
pub record CircuitBreakerConfig : Type 0 where
  pub max_failures : ℕ
  pub timeout : ℕ
  pub half_open_max_requests : ℕ
  pub rate_reached : ℕ → ℕ → Bool
  pub min_requests : ℕ
  pub notifies : Bool

-- `started` are the calls of `OnStateChange` that were started, newest first.
pub record CircuitBreaker : Type 0 where
  pub state : CircuitState
  pub failures : ℕ
  pub successes : ℕ
  pub total_requests : ℕ
  pub last_failure_time : ℕ
  pub half_open_requests : ℕ
  pub half_open_failures : ℕ
  pub opened_at : ℕ
  pub started : List (CircuitState × CircuitState)

unfoldable pub new_circuit_breaker : CircuitBreaker
new_circuit_breaker = record {
  state = closed;
  failures = 0;
  successes = 0;
  total_requests = 0;
  last_failure_time = 0;
  half_open_requests = 0;
  half_open_failures = 0;
  opened_at = 0;
  started = [];
}

pub data BreakerError : Type 0 where
  breaker_open half_open_full : BreakerError

-- A callback is started where one is set.
notify : CircuitBreakerConfig → CircuitState → CircuitState → CircuitBreaker → CircuitBreaker
notify c from to cb = if c.notifies then record cb { started = (from, to) ∷ cb.started } else cb

change_state : CircuitBreakerConfig → CircuitState → CircuitBreaker → CircuitBreaker
unfolding notify
change_state c new_state cb = notify c cb.state new_state (record cb { state = new_state })

before_request_in :
    CircuitState → CircuitBreakerConfig → ℕ → CircuitBreaker → CircuitBreaker × Option BreakerError
unfolding change_state
before_request_in closed c now cb = (cb, none)
before_request_in open_ c now cb =
    if leb (cb.opened_at + c.timeout) now
    then (
      record (change_state c half_open cb) { half_open_requests = 0; half_open_failures = 0 },
      none,
    )
    else (cb, some breaker_open)
before_request_in half_open c now cb =
    if leb c.half_open_max_requests cb.half_open_requests
    then (cb, some half_open_full)
    else (record cb { half_open_requests = cb.half_open_requests + 1 }, none)

-- The `switch cb.state` of `beforeRequest`; no other state is ever assigned.
unfoldable pub before_request :
    CircuitBreakerConfig → ℕ → CircuitBreaker → CircuitBreaker × Option BreakerError
unfolding before_request_in
before_request c now cb = before_request_in cb.state c now cb

unfoldable pub should_open : CircuitBreakerConfig → CircuitBreaker → Bool
should_open c cb =
    leb c.max_failures cb.failures
    || (leb c.min_requests cb.total_requests && c.rate_reached cb.failures cb.total_requests)

reset_counters : CircuitBreaker → CircuitBreaker
reset_counters cb = record cb {
  failures = 0;
  successes = 0;
  total_requests = 0;
  half_open_requests = 0;
  half_open_failures = 0;
}

-- The state after a failed request that was made while the breaker was closed.
closed_failure : CircuitBreakerConfig → ℕ → CircuitBreaker → CircuitBreaker
unfolding change_state
closed_failure c now cb =
    let f = record cb { failures = cb.failures + 1; last_failure_time = now } in
    if should_open c f then record (change_state c open_ f) { opened_at = now } else f

after_request_in : CircuitState → CircuitBreakerConfig → ℕ → Bool → CircuitBreaker → CircuitBreaker
unfolding closed_failure change_state reset_counters
after_request_in closed c now failed cb =
    let t = record cb { total_requests = cb.total_requests + 1 } in
    if failed then closed_failure c now t else record t { successes = t.successes + 1 }
after_request_in half_open c now failed cb =
    if failed
    then record (change_state c open_
        (record cb { half_open_failures = cb.half_open_failures + 1 })) { opened_at = now }
    else reset_counters (change_state c closed cb)
after_request_in open_ c now failed cb = cb

-- `failed` says whether the request's error is not nil.
unfoldable pub after_request : CircuitBreakerConfig → ℕ → Bool → CircuitBreaker → CircuitBreaker
unfolding after_request_in
after_request c now failed cb = after_request_in cb.state c now failed cb

-- What `Execute` returns: the breaker's error, or the function's (`true` for an error).
pub data Outcome : Type 0 where
  refused : BreakerError → Outcome
  ran : Bool → Outcome

-- The times are those of the two steps, and `failed` is what the function returns if it is called.
unfoldable pub execute :
    CircuitBreakerConfig → ℕ → ℕ → Bool → CircuitBreaker → CircuitBreaker × Outcome
execute c now later failed cb =
    let (b, e) = before_request c now cb in
    elim e [ some x ↦ (b, refused x) | none ↦ (after_request c later failed b, ran failed) ]

abbrev pub is_closed : CircuitState → Bool
is_closed closed = true
is_closed _ = false

abbrev pub is_open : CircuitState → Bool
is_open open_ = true
is_open _ = false

-- `Reset`
unfoldable pub reset : CircuitBreakerConfig → CircuitBreaker → CircuitBreaker
unfolding notify reset_counters
reset c cb =
    let r = reset_counters (record cb { state = closed }) in
    if is_closed cb.state then r else notify c cb.state closed r

unfoldable pub force_open : CircuitBreakerConfig → ℕ → CircuitBreaker → CircuitBreaker
unfolding notify
force_open c now cb =
    if is_open cb.state
    then cb
    else notify c cb.state open_ (record cb { state = open_; opened_at = now })

-- The calls that the goroutines of a client make, each one step under the mutex.
pub data Event : Type 0 where
  begin : ℕ → Event
  finish : ℕ → Bool → Event
  reset_event : Event
  force_event : ℕ → Event

unfoldable pub step : CircuitBreakerConfig → Event → CircuitBreaker → CircuitBreaker
unfolding before_request after_request reset force_open
step c (begin now) cb = (before_request c now cb).0
step c (finish now failed) cb = after_request c now failed cb
step c reset_event cb = reset c cb
step c (force_event now) cb = force_open c now cb

unfoldable pub run : CircuitBreakerConfig → List Event → CircuitBreaker → CircuitBreaker
run c [] cb = cb
run c (e ∷ es) cb = run c es (step c e cb)
