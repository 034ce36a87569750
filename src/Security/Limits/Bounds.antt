-- ===== src/Security/Limits/Bounds.antt =====
-- The limiter never lets more through than its bucket holds, and the manager never passes its limit.
use go_tor.Prelude.{
  ℕ, ◌+◌, ◌-◌, ◌≤◌, ◌<◌, ◌≡◌, refl, List, [], ◌∷◌, arith, length, All, ltb, ok, if◌then◌else◌,
}
use go_tor.Security.Limits.{
  RateLimiter, allow, allow_all, ResourceManager, allocate, release, Call, allocate_call,
  release_call, run_calls,
}
use Prim.Native.Nat.{min}

allow_same_window :
    (rl : RateLimiter) (now : ℕ)
    → now ≤ rl.refill_at
    → ((allow rl now).0.refill_at ≡ rl.refill_at)
      × ((allow rl now).0.tokens + (if (allow rl now).1 then 1 else 0) ≡ rl.tokens)
      × ((allow rl now).1 ≡ ltb 0 rl.tokens)
unfolding allow
allow_same_window rl now h = ground arith

-- As long as the refill time is not past, the calls let through are exactly as many as there are
-- tokens, or all of them where there are fewer calls.
pub allow_all_exact :
    (rl : RateLimiter) (times : List ℕ)
    → All (λ t. t ≤ rl.refill_at) times
    → (allow_all rl times).1 ≡ min (length times) rl.tokens
unfolding allow_all
allow_all_exact rl [] h = omega arith
allow_all_exact rl (t ∷ ts) h =
    let w = allow_same_window rl t h.0 in
    let ih = allow_all_exact (allow rl t).0 ts (rw w.0 h.1) in ground (arith, w.1, w.2, ih)

-- A call after the refill time fills the bucket first: it is let through exactly when the bucket
-- can hold a token, and the next refill is an interval later.
pub allow-refills :
    (rl : RateLimiter) (now : ℕ)
    → rl.refill_at < now
    → ((allow rl now).1 ≡ ltb 0 rl.max_tokens)
      × ((allow rl now).0.tokens ≡ rl.max_tokens - 1)
      × ((allow rl now).0.refill_at ≡ now + rl.interval)
unfolding allow
allow-refills rl now h = ground arith

-- Whatever the calls, a manager never holds more than its limit.
pub run_calls_bounded :
    (rm : ResourceManager) (cs : List Call)
    → rm.current ≤ rm.limit
    → ((run_calls rm cs).current ≤ (run_calls rm cs).limit) × ((run_calls rm cs).limit ≡ rm.limit)
unfolding run_calls allocate release
run_calls_bounded rm [] h = (h, refl)
run_calls_bounded rm (allocate_call ∷ cs) h = ground (arith, run_calls_bounded (allocate rm).0 cs)
run_calls_bounded rm (release_call ∷ cs) h = ground (arith, run_calls_bounded (release rm) cs)

-- Allocation succeeds exactly below the limit, and a release after it gives back the manager.
pub release-allocate :
    (rm : ResourceManager)
    → rm.current < rm.limit
    → ((allocate rm).1 ≡ ok tt) × (release (allocate rm).0 ≡ rm)
unfolding allocate release
release-allocate rm h = ground arith
