-- ===== src/Errors/Breaker/Tests.antt =====
-- The breaker's theorems at concrete configurations.
use go_tor.Prelude.{true, false, List, [], ◌∷◌, arith}
use go_tor.Errors.Breaker.{
  CircuitBreakerConfig, new_circuit_breaker, Event, begin, finish, force_event, reset_event, run,
}
use go_tor.Errors.Breaker.Counters.{IsSound, run-IsSound}

-- Three failures, no error rate, one half-open request, a timeout of 100.
abbrev three : CircuitBreakerConfig
three = record {
  max_failures = 3;
  timeout = 100;
  half_open_max_requests = 1;
  rate_reached = λ f n. false;
  min_requests = 10;
  notifies = true;
}

abbrev mixed : List Event
mixed =
    begin 1
    ∷ begin 2
    ∷ finish 3 true
    ∷ force_event 4
    ∷ finish 5 false
    ∷ begin 200
    ∷ reset_event
    ∷ []

run-IsSound_example : IsSound three (run three mixed new_circuit_breaker)
run-IsSound_example = run-IsSound three mixed (omega arith)
