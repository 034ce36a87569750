-- ===== src/Errors/Breaker/Trace.antt =====
-- The calls of `OnStateChange`, against the states that the breaker goes through.
use go_tor.Prelude.{◌≡◌, refl, true, List, [], ◌∷◌, arith}
use go_tor.Errors.Breaker.{
  CircuitState, closed, open_, half_open, CircuitBreakerConfig, CircuitBreaker, new_circuit_breaker,
  Event, begin, finish, reset_event, force_event, step, run,
}

-- The changes that the breaker may make.
pub data Change : CircuitState → CircuitState → Type 0 where
  trip : Change closed open_
  probe : Change open_ half_open
  reopen : Change half_open open_
  recover : Change half_open closed
  manual_close : Change open_ closed

-- Changes, newest first, that lead from the closed state to this one, each from where the one before
-- it ended.
abbrev pub Leads : List (CircuitState × CircuitState) → CircuitState → Type 0
Leads [] s = s ≡ closed
Leads ((from, to) ∷ older) s = (to ≡ s) × Change from to × Leads older from

Leads-step :
    (c : CircuitBreakerConfig) (e : Event) (cb : CircuitBreaker)
    → c.notifies ≡ true
    → Leads cb.started cb.state
    → Leads (step c e cb).started (step c e cb).state
unfolding step
Leads-step c (begin now) cb n h = grind (arith, probe)
Leads-step c (finish now failed) cb n h = grind (arith, trip, reopen, recover)
Leads-step c reset_event cb n h = grind (arith, recover, manual_close)
Leads-step c (force_event now) cb n h = grind (arith, trip, reopen)

run-Leads_from :
    (c : CircuitBreakerConfig) (es : List Event) (cb : CircuitBreaker)
    → c.notifies ≡ true
    → Leads cb.started cb.state
    → Leads (run c es cb).started (run c es cb).state
unfolding run
run-Leads_from c [] cb n h = h
run-Leads_from c (e ∷ es) cb n h = run-Leads_from c es (step c e cb) n (Leads-step c e cb n h)

-- Where a callback is set, the calls of it that were started tell the whole course of the breaker
-- from closed to its present state, under any interleaving: each call starts from the state in
-- which the one before it ended, and each is one of the five changes of the state machine.
pub run-Leads :
    (c : CircuitBreakerConfig) (es : List Event)
    → c.notifies ≡ true
    → let cb = run c es new_circuit_breaker in Leads cb.started cb.state
unfolding new_circuit_breaker
run-Leads c es n = run-Leads_from c es new_circuit_breaker n refl
