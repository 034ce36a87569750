-- ===== src/Errors/Retry.antt =====
-- pkg/errors/retry.go: calls that are tried again.
-- The function works on a state. Whether the context is done when an attempt begins, or ends the wait
-- after it, is a question that the attempt's number answers, and `pause` is what others do to the
-- state in that wait. The length of a wait, a float64 with random jitter, and the duration that the
-- statistics hold are left out.
pub mod Attempts
pub mod Variants
mod Tests
use go_tor.Prelude.{
  ℕ, zero, suc, ◌+◌, Bool, true, false, not, ◌&&◌, List, [], ◌∷◌, Option, none, some, leb, ltb,
  if◌then◌else◌,
}
use go_tor.Security.Int.{ℤ, pos, negsuc}
use go_tor.Errors.Value.{
  ErrorCategory, connection, circuit, directory, timeout, network, Error, nil, wrapped, is_nil,
  is_retryable, get_category, retry_cancelled, cancelled_during_backoff, attempts_exceeded,
}

-- `retryable_errors` is nil or a map, where a missing key reads as false.
pub record RetryPolicy : Type 0 where
  pub max_attempts : ℤ
  pub retryable_errors : Option (ErrorCategory → Bool)

abbrev pub common_categories : ErrorCategory → Bool
common_categories connection = true
common_categories circuit = true
common_categories directory = true
common_categories timeout = true
common_categories network = true
common_categories _ = false

abbrev pub few_categories : ErrorCategory → Bool
few_categories connection = true
few_categories timeout = true
few_categories network = true
few_categories _ = false

abbrev pub default_retry_policy : RetryPolicy
default_retry_policy = record { max_attempts = pos 3; retryable_errors = some common_categories }

abbrev pub aggressive_retry_policy : RetryPolicy
aggressive_retry_policy = record { max_attempts = pos 5; retryable_errors = some common_categories }

abbrev pub conservative_retry_policy : RetryPolicy
conservative_retry_policy = record { max_attempts = pos 2; retryable_errors = some few_categories }

-- What the caller hands over: the function, and the context as the attempts find it.
pub record Task (S : Type 0) : Type 0 where
  pub fn : S → S × Error
  pub done_before : ℕ → Bool
  pub done_during : ℕ → Bool
  pub pause : ℕ → S → S
  pub ctx_err : Error

-- `p.RetryableErrors[category]` of a map that may be nil
in_categories : Option (ErrorCategory → Bool) → ErrorCategory → Bool
in_categories none c = false
in_categories (some f) c = f c

unfoldable pub should_retry : RetryPolicy → Error → Bool
unfolding in_categories
should_retry p e =
    if is_retryable e then true else in_categories p.retryable_errors (get_category e)

-- `policy == nil`
abbrev pub or_default : Option RetryPolicy → RetryPolicy
or_default none = default_retry_policy
or_default (some p) = p

-- The turns that `attempt <= policy.MaxAttempts` leaves from attempt 0.
abbrev pub turns : ℤ → ℕ
turns (pos m) = suc m
turns (negsuc m) = 0

-- `attempt >= policy.MaxAttempts`, and the number that is printed
abbrev pub at_last : ℕ → ℤ → Bool
at_last a (pos m) = leb m a
at_last a (negsuc m) = true

abbrev pub printed : ℤ → ℕ
printed (pos m) = m
printed (negsuc m) = 0

-- What a failed attempt returns, if it is not to be repeated.
unfoldable pub give_up : {S : Type 0} → RetryPolicy → Task S → ℕ → Error → Option Error
give_up p w a e =
    if not (should_retry p e)
    then some e
    else if at_last a p.max_attempts
    then some (wrapped (attempts_exceeded (printed p.max_attempts)) e)
    else if w.done_during a
    then some (wrapped cancelled_during_backoff w.ctx_err)
    else none

-- The loop of `RetryWithPolicy`, on the turns that are left, at attempt `a`.
unfoldable pub retry_loop : {S : Type 0} → RetryPolicy → Task S → ℕ → ℕ → Error → S → S × Error
unfolding give_up
retry_loop p w zero a last s = (s, last)
retry_loop p w (suc k) a last s =
    let (s', e) = w.fn s in
    let rest = retry_loop p w k (suc a) e (w.pause a s') in
    if w.done_before a
    then (s, wrapped retry_cancelled w.ctx_err)
    else if is_nil e
    then (s', nil)
    else elim (give_up p w a e) [ some x ↦ (s', x) | none ↦ rest ]

unfoldable pub retry_with_policy : {S : Type 0} → Option RetryPolicy → Task S → S → S × Error
unfolding retry_loop
retry_with_policy o w s = let p = or_default o in retry_loop p w (turns p.max_attempts) 0 nil s

unfoldable pub retry : {S : Type 0} → Task S → S → S × Error
unfolding retry_with_policy
retry w s = retry_with_policy (some default_retry_policy) w s

pub record RetryStats : Type 0 where
  pub total_attempts : ℕ
  pub successful_retry : Bool
  pub final_error : Error

abbrev pub new_stats : RetryStats
new_stats = record { total_attempts = 0; successful_retry = false; final_error = nil }

-- The loop of `RetryWithStats`.
unfoldable pub stats_loop :
    {S : Type 0} → RetryPolicy → Task S → ℕ → ℕ → Error → RetryStats → S → S × (RetryStats × Error)
unfolding give_up
stats_loop p w zero a last t s = (s, (record t { final_error = last }, last))
stats_loop p w (suc k) a last t s =
    let u = record t { total_attempts = t.total_attempts + 1 } in
    let (s', e) = w.fn s in
    let rest = stats_loop p w k (suc a) e u (w.pause a s') in
    let c = wrapped retry_cancelled w.ctx_err in
    if w.done_before a
    then (s, (record u { final_error = c }, c))
    else if is_nil e
    then (s', (record u { successful_retry = ltb 0 a }, nil))
    else elim (give_up p w a e) [ some x ↦ (s', (record u { final_error = x }, x)) | none ↦ rest ]

unfoldable pub retry_with_stats :
    {S : Type 0} → Option RetryPolicy → Task S → S → S × (RetryStats × Error)
unfolding stats_loop
retry_with_stats o w s =
    let p = or_default o in stats_loop p w (turns p.max_attempts) 0 nil new_stats s

-- A call of the callback: the attempt, its error, and `willRetry`.
pub record Called : Type 0 where
  pub attempt : ℕ
  pub error : Error
  pub will_retry : Bool

-- The loop of `RetryWithCallbackFunc`, with the calls of a callback that is set.
unfoldable pub callback_loop :
    {S : Type 0} → RetryPolicy → Task S → ℕ → ℕ → Error → S → S × (List Called × Error)
callback_loop p w zero a last s = (s, ([], last))
callback_loop p w (suc k) a last s =
    let (s', e) = w.fn s in
    let again = should_retry p e && not (at_last a p.max_attempts) in
    let rest = callback_loop p w k (suc a) e (w.pause a s') in
    let c : Called = record { attempt = a; error = e; will_retry = again } in
    if w.done_before a
    then (s, ([], wrapped retry_cancelled w.ctx_err))
    else if is_nil e
    then (s', (record { attempt = a; error = nil; will_retry = false } ∷ [], nil))
    else if not again
    then (s', (c ∷ [], e))
    else if w.done_during a
    then (s', (c ∷ [], wrapped cancelled_during_backoff w.ctx_err))
    else (rest.0, (c ∷ rest.1.0, rest.1.1))

unfoldable pub retry_with_callback :
    {S : Type 0} → Option RetryPolicy → Task S → S → S × (List Called × Error)
unfolding callback_loop
retry_with_callback o w s = let p = or_default o in callback_loop p w (turns p.max_attempts) 0 nil s
