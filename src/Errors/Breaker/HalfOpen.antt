-- ===== src/Errors/Breaker/HalfOpen.antt =====
-- How many requests are let through while the breaker is half-open.
use go_tor.Prelude.{
  ℕ, ◌+◌, ◌-◌, ◌≤◌, ◌≡◌, List, [], ◌∷◌, Option, none, some, ltb, if◌then◌else◌, arith, length,
}
use Prim.Native.Nat.{min}
use go_tor.Errors.Breaker.{
  open_, half_open, CircuitBreakerConfig, CircuitBreaker, before_request, BreakerError,
}

abbrev pub is_allowed : Option BreakerError → ℕ
is_allowed none = 1
is_allowed (some _) = 0

-- Requests that begin at the given times, none of which has ended yet: how many are let through.
unfoldable pub allowed : CircuitBreakerConfig → List ℕ → CircuitBreaker → ℕ
allowed c [] cb = 0
allowed c (now ∷ later) cb = let r = before_request c now cb in is_allowed r.1 + allowed c later r.0

half_open_step :
    (c : CircuitBreakerConfig) (now : ℕ) (cb : CircuitBreaker)
    → cb.state ≡ half_open
    → let r = before_request c now cb in
      (r.0.state ≡ half_open)
      × (is_allowed r.1 ≡ (if ltb cb.half_open_requests c.half_open_max_requests then 1 else 0))
      × (r.0.half_open_requests ≡ cb.half_open_requests + is_allowed r.1)
unfolding before_request
half_open_step c now cb h = ground arith

allowed_half_open :
    (c : CircuitBreakerConfig) (times : List ℕ) (cb : CircuitBreaker)
    → cb.state ≡ half_open
    → cb.half_open_requests ≤ c.half_open_max_requests
    → allowed c times cb ≡ min (length times) (c.half_open_max_requests - cb.half_open_requests)
unfolding allowed
allowed_half_open c [] cb h m = omega arith
allowed_half_open c (now ∷ later) cb h m =
    let (s, a, n) = half_open_step c now cb h in
    let next = (before_request c now cb).0 in
    ground (arith, s, a, n, allowed_half_open c later next s)

opened_step :
    (c : CircuitBreakerConfig) (now : ℕ) (cb : CircuitBreaker)
    → cb.state ≡ open_
    → cb.opened_at + c.timeout ≤ now
    → let r = before_request c now cb in
      (r.0.state ≡ half_open) × (r.1 ≡ none) × (r.0.half_open_requests ≡ 0)
unfolding before_request
opened_step c now cb h late = ground arith

-- Of the requests that begin after the timeout of an open breaker, before any of them has ended, one
-- more than `HalfOpenMaxRequests` are let through: the request that makes the breaker half-open is
-- not counted.
pub half_open_allows_one_more :
    (c : CircuitBreakerConfig) (first : ℕ) (later : List ℕ) (cb : CircuitBreaker)
    → cb.state ≡ open_
    → cb.opened_at + c.timeout ≤ first
    → allowed c (first ∷ later) cb ≡ min (length (first ∷ later)) (c.half_open_max_requests + 1)
unfolding allowed
half_open_allows_one_more c first later cb h late =
    let (s, a, n) = opened_step c first cb h late in
    let next = (before_request c first cb).0 in
    rw a (omega (arith, n, allowed_half_open c later next s (omega (arith, n))))
