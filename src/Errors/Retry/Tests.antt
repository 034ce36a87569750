-- ===== src/Errors/Retry/Tests.antt =====
-- A function that fails twice, one that never succeeds, and an open breaker.
use go_tor.Prelude.{
  ℕ, ◌≤◌, ◌<◌, ◌≡◌, [], zero, suc, ◌+◌, true, false, none, some, refl, arith, ltb, if◌then◌else◌,
}
use go_tor.Errors.Value.{nil, wrapped, attempts_exceeded, error_of, timeout, other_text}
use go_tor.Errors.Breaker.{open_, breaker_open, CircuitBreakerConfig, CircuitBreaker}
use go_tor.Errors.Breaker.Guarded.{execute_with_retry, waited, breaker_error, refused_throughout}
use go_tor.Errors.Retry.{
  Task, should_retry, default_retry_policy, retry_with_policy, retry_with_stats,
  retry_with_callback,
}
use go_tor.Errors.Retry.Attempts.{Ends, retry_exact}
use go_tor.Errors.Retry.Variants.{SameEnd, Reported, variants_agree}

-- The state counts the calls; the third and later ones succeed.
abbrev third_succeeds : Task ℕ
third_succeeds = record {
  fn = λ n. (n + 1, if ltb n 2 then error_of timeout (other_text 0) nil else nil);
  done_before = λ a. false;
  done_during = λ a. false;
  pause = λ a n. n;
  ctx_err = nil;
}

retry_exact_example :
    Ends default_retry_policy third_succeeds 3 0 0
      (retry_with_policy (some default_retry_policy) third_succeeds 0)
retry_exact_example = retry_exact default_retry_policy third_succeeds 0

variants_agree_example :
    SameEnd 0 4 (retry_with_stats none third_succeeds 0) (retry_with_policy none third_succeeds 0)
    × Reported default_retry_policy third_succeeds 4 0 0
        (retry_with_callback none third_succeeds 0)
        (retry_with_policy none third_succeeds 0)
variants_agree_example = variants_agree none third_succeeds 0

-- Three failures, no error rate, one half-open request, a timeout of 100.
abbrev three : CircuitBreakerConfig
three = record {
  max_failures = 3;
  timeout = 100;
  half_open_max_requests = 1;
  rate_reached = λ f n. false;
  min_requests = 10;
  notifies = true;
}

abbrev tripped : CircuitBreaker
tripped = record {
  state = open_;
  failures = 3;
  successes = 0;
  total_requests = 3;
  last_failure_time = 50;
  half_open_requests = 0;
  half_open_failures = 0;
  opened_at = 50;
  started = [];
}

-- The state is the clock, and each wait takes ten units.
abbrev ten_apart : Task ℕ
ten_apart = record {
  fn = λ n. (n, nil);
  done_before = λ a. false;
  done_during = λ a. false;
  pause = λ a n. n + 10;
  ctx_err = nil;
}

soon : (j : ℕ) → j ≤ 3 → waited ten_apart 0 j 60 < 150
unfolding waited
soon zero l = omega arith
soon (suc zero) l = omega arith
soon (suc (suc zero)) l = omega arith
soon (suc (suc (suc zero))) l = omega arith
soon (suc (suc (suc (suc j)))) l = absurd (omega (arith, l))

refused_throughout_example :
    (execute_with_retry three (λ n. n) (some default_retry_policy) ten_apart (tripped, 60) ≡ (
      (tripped, waited ten_apart 0 3 60),
      wrapped (attempts_exceeded 3) (breaker_error breaker_open),
    ))
    × (should_retry default_retry_policy
          (execute_with_retry three (λ n. n) (some default_retry_policy) ten_apart (tripped, 60)).1
        ≡ true)
refused_throughout_example =
    refused_throughout three (λ n. n) default_retry_policy ten_apart 3 tripped 60 refl
      (λ a. (refl, refl)) refl soon
