-- ===== src/Security/Limits.antt =====
-- pkg/security/helpers.go: the token-bucket limiter and the resource counter.
-- `time.Now()` is an argument; times and durations are nanoseconds.
mod Bounds
mod Tests
use go_tor.Prelude.{
  ℕ, ◌+◌, ◌-◌, Bool, true, false, List, [], ◌∷◌, Result, ok, err, ltb, leb, if◌then◌else◌,
}

-- A limit is configured as a positive number, so the counters are not negative.
pub record RateLimiter : Type 0 where
  pub tokens : ℕ
  pub max_tokens : ℕ
  pub refill_at : ℕ
  pub interval : ℕ

unfoldable pub new_rate_limiter : ℕ → ℕ → ℕ → RateLimiter
new_rate_limiter max_tokens interval now = record {
  tokens = max_tokens;
  max_tokens = max_tokens;
  refill_at = now + interval;
  interval = interval;
}

-- The `if now.After(rl.refillAt)` of `Allow`.
refill : RateLimiter → ℕ → RateLimiter
refill rl now =
    if ltb rl.refill_at now
    then record rl { tokens = rl.max_tokens; refill_at = now + rl.interval }
    else rl

unfoldable pub allow : RateLimiter → ℕ → RateLimiter × Bool
unfolding refill
allow rl now =
    let r = refill rl now in
    if ltb 0 r.tokens then (record r { tokens = r.tokens - 1 }, true) else (r, false)

-- `Allow` at each time of a list: how many calls were allowed, and the limiter after them.
unfoldable pub allow_all : RateLimiter → List ℕ → RateLimiter × ℕ
allow_all rl [] = (rl, 0)
allow_all rl (now ∷ later) =
    let (r, allowed) = allow rl now in
    let (s, n) = allow_all r later in (s, if allowed then n + 1 else n)

pub record ResourceManager : Type 0 where
  pub limit : ℕ
  pub current : ℕ

pub data LimitError : Type 0 where
  limit_exceeded : LimitError

unfoldable pub new_resource_manager : ℕ → ResourceManager
new_resource_manager limit = record { limit = limit; current = 0 }

-- The resource's name stands only in the error's text.
unfoldable pub allocate : ResourceManager → ResourceManager × Result LimitError (Unit {0})
allocate rm =
    if leb rm.limit rm.current
    then (rm, err limit_exceeded)
    else (record rm { current = rm.current + 1 }, ok tt)

unfoldable pub release : ResourceManager → ResourceManager
release rm = if ltb 0 rm.current then record rm { current = rm.current - 1 } else rm

-- A client's calls.
pub data Call : Type 0 where
  allocate_call release_call : Call

-- The manager after the calls.
unfoldable pub run_calls : ResourceManager → List Call → ResourceManager
unfolding allocate release
run_calls rm [] = rm
run_calls rm (allocate_call ∷ cs) = run_calls (allocate rm).0 cs
run_calls rm (release_call ∷ cs) = run_calls (release rm) cs
