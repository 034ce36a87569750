-- ===== src/Errors/Breaker/Guarded.antt =====
-- pkg/errors/breaker.go with pkg/errors/retry.go: `Execute` of a function on a state, and
-- `ExecuteWithRetry`. The clock is read off the state, which passes in the waits; nobody else uses the
-- breaker meanwhile.
use go_tor.Prelude.{
  ℕ, zero, suc, ◌+◌, ◌≤◌, ◌<◌, ◌≡◌, refl, ap, ◌∙◌, true, false, not, Option, none, some, leb, arith,
}
use go_tor.Security.Int.{pos}
use go_tor.Errors.Value.{
  Error, nil, wrapped, tor, internal, medium, breaker_is_open, breaker_is_half_open, is_nil,
  is_retryable, attempts_exceeded,
}
use go_tor.Errors.Breaker.{
  open_, CircuitBreakerConfig, CircuitBreaker, BreakerError, breaker_open, half_open_full,
  before_request, before_request_in, after_request,
}
use go_tor.Errors.Retry.{
  RetryPolicy, Task, should_retry, retry_loop, retry_with_policy, give_up, turns,
}
use go_tor.Errors.Retry.Attempts.{loop_gives_up, loop_repeats, gives_exhausted, gives_none}

-- The TorErrors that `beforeRequest` returns.
abbrev pub breaker_error : BreakerError → Error
breaker_error breaker_open =
    tor
      (record {
        category = internal;
        severity = medium;
        message = breaker_is_open;
        retryable = true;
      })
      nil
breaker_error half_open_full =
    tor
      (record {
        category = internal;
        severity = medium;
        message = breaker_is_half_open;
        retryable = true;
      })
      nil

-- The rest of `Execute`, by what `beforeRequest` says.
abbrev pub run_allowed :
    {W : Type 0}
    → CircuitBreakerConfig
    → (W → ℕ)
    → (W → W × Error)
    → W
    → CircuitBreaker × Option BreakerError
    → (CircuitBreaker × W) × Error
run_allowed c clock f s (b, some x) = ((b, s), breaker_error x)
run_allowed c clock f s (b, none) =
    let (s', r) = f s in ((after_request c (clock s') (not (is_nil r)) b, s'), r)

-- `Execute`, with the clock of the state before and after the function.
unfoldable pub execute_on :
    {W : Type 0}
    → CircuitBreakerConfig
    → (W → ℕ)
    → (W → W × Error)
    → CircuitBreaker × W
    → (CircuitBreaker × W) × Error
execute_on c clock f (cb, s) = run_allowed c clock f s (before_request c (clock s) cb)

-- The function that `ExecuteWithRetry` hands to `RetryWithPolicy`.
abbrev pub guarded_task :
    {W : Type 0} → CircuitBreakerConfig → (W → ℕ) → Task W → Task (CircuitBreaker × W)
guarded_task c clock w = record {
  fn = execute_on c clock w.fn;
  done_before = w.done_before;
  done_during = w.done_during;
  pause = λ a q. (q.0, w.pause a q.1);
  ctx_err = w.ctx_err;
}

unfoldable pub execute_with_retry :
    {W : Type 0}
    → CircuitBreakerConfig
    → (W → ℕ)
    → Option RetryPolicy
    → Task W
    → CircuitBreaker × W
    → (CircuitBreaker × W) × Error
execute_with_retry c clock o w q = retry_with_policy o (guarded_task c clock w) q

-- The state after `n` waits from the one after attempt `a` on, when nothing else happens.
unfoldable pub waited : {W : Type 0} → Task W → ℕ → ℕ → W → W
waited w a zero s = s
waited w a (suc n) s = waited w (suc a) n (w.pause a s)

before_refused :
    (c : CircuitBreakerConfig) (now : ℕ) (cb : CircuitBreaker)
    → cb.state ≡ open_
    → now < cb.opened_at + c.timeout
    → before_request c now cb ≡ (cb, some breaker_open)
unfolding before_request before_request_in
before_refused c now cb o l =
    let e : leb (cb.opened_at + c.timeout) now ≡ false = ground arith in
    ap (λ t. before_request_in t c now cb) o ∙ rw e refl

refused_on :
    {W : Type 0} (c : CircuitBreakerConfig) (clock : W → ℕ) (f : W → W × Error)
    (cb : CircuitBreaker) (s : W)
    → cb.state ≡ open_
    → clock s < cb.opened_at + c.timeout
    → execute_on c clock f (cb, s) ≡ ((cb, s), breaker_error breaker_open)
unfolding execute_on
refused_on c clock f cb s o l = ap (run_allowed c clock f s) (before_refused c (clock s) cb o l)

refusal_retried : (p : RetryPolicy) → should_retry p (breaker_error breaker_open) ≡ true
unfolding should_retry is_retryable
refusal_retried p = refl

wrapped_retried :
    (p : RetryPolicy) (m : ℕ)
    → should_retry p (wrapped (attempts_exceeded m) (breaker_error breaker_open)) ≡ true
unfolding should_retry is_retryable
wrapped_retried p m = refl

module _ {W : Type 0} (c : CircuitBreakerConfig) (clock : W → ℕ) (p : RetryPolicy) (w : Task W)
    (m : ℕ) (limit : p.max_attempts ≡ pos m)
    (calm : (a : ℕ) → (w.done_before a ≡ false) × (w.done_during a ≡ false)) (cb : CircuitBreaker)
    (opened : cb.state ≡ open_) where
  loop_refused :
      (k a : ℕ) (x : Error) (s : W)
      → a + k ≡ m
      → ((j : ℕ) → j ≤ k → clock (waited w a j s) < cb.opened_at + c.timeout)
      → retry_loop p (guarded_task c clock w) (suc k) a x (cb, s)
        ≡ ((cb, waited w a k s), wrapped (attempts_exceeded m) (breaker_error breaker_open))
  unfolding waited
  loop_refused zero a x s q early =
      let task = guarded_task c clock w in
      let e = breaker_error breaker_open in
      let r = refused_on c clock w.fn cb s opened (early 0 (omega arith)) in
      let l : leb m a ≡ true = ground arith in
      loop_gives_up p task zero a x (wrapped (attempts_exceeded m) e) (cb, s) (calm a).0
        (ap (λ t. is_nil t.1) r)
        (ap (λ t. give_up p task a t.1) r
          ∙ gives_exhausted p task m a e limit (refusal_retried p) l)
      ∙ ap (λ t. (t.0, wrapped (attempts_exceeded m) e)) r
  loop_refused (suc k) a x s q early =
      let task = guarded_task c clock w in
      let e = breaker_error breaker_open in
      let r = refused_on c clock w.fn cb s opened (early 0 (omega arith)) in
      let l : leb m a ≡ false = ground arith in
      loop_repeats p task (suc k) a x (cb, s) (calm a).0 (ap (λ t. is_nil t.1) r)
        (ap (λ t. give_up p task a t.1) r
          ∙ gives_none p task m a e limit (refusal_retried p) l (calm a).1)
      ∙ ap (λ t. retry_loop p task (suc k) (suc a) t.1 (t.0.0, w.pause a t.0.1)) r
      ∙ loop_refused k (suc a) e (w.pause a s) (omega (arith, q))
          (λ j b. early (suc j) (omega (arith, b)))

-- `ExecuteWithRetry` with m retries on a breaker that stays open until after the last attempt: the
-- function is never called, the breaker is left as it is, all m waits are made, and the error is "max
-- retry attempts exceeded" around the breaker's, which is marked retryable itself, so that a retry
-- around this one starts over.
pub refused_throughout :
    {W : Type 0} (c : CircuitBreakerConfig) (clock : W → ℕ) (p : RetryPolicy) (w : Task W) (m : ℕ)
    (cb : CircuitBreaker) (s : W)
    → p.max_attempts ≡ pos m
    → ((a : ℕ) → (w.done_before a ≡ false) × (w.done_during a ≡ false))
    → cb.state ≡ open_
    → ((j : ℕ) → j ≤ m → clock (waited w 0 j s) < cb.opened_at + c.timeout)
    → (execute_with_retry c clock (some p) w (cb, s)
        ≡ ((cb, waited w 0 m s), wrapped (attempts_exceeded m) (breaker_error breaker_open)))
      × (should_retry p (execute_with_retry c clock (some p) w (cb, s)).1 ≡ true)
unfolding execute_with_retry retry_with_policy
refused_throughout c clock p w m cb s h calm o early =
    let r = loop_refused c clock p w m h calm cb o m 0 nil s (omega arith) early in
    let t = ap (λ z. retry_loop p (guarded_task c clock w) (turns z) 0 nil (cb, s)) h ∙ r in
    (t, ap (λ q. should_retry p q.1) t ∙ wrapped_retried p m)
