-- ===== src/Errors/Retry/Attempts.antt =====
-- Which attempt is the last, and what it returns.
use go_tor.Prelude.{
  ℕ, zero, suc, ◌+◌, ◌≤◌, ◌<◌, ◌≡◌, refl, subst, inl, inr, true, false, none, some, leb, Bool-cases,
  arith,
}
use go_tor.Security.Int.{ℤ, pos, negsuc}
use go_tor.Errors.Value.{
  Error, nil, wrapped, is_nil, retry_cancelled, cancelled_during_backoff, attempts_exceeded,
}
use go_tor.Errors.Retry.{
  RetryPolicy, Task, should_retry, retry_loop, retry_with_policy, turns, give_up,
}

-- The error of a call, and the state in which the next attempt finds the world.
abbrev pub outcome : {S : Type 0} → Task S → S → Error
outcome w s = (w.fn s).1

abbrev pub next_state : {S : Type 0} → Task S → ℕ → S → S
next_state w a s = w.pause a (w.fn s).0

-- The state that attempt `a + n` finds, if the attempts from `a` on are made.
unfoldable pub found_by : {S : Type 0} → Task S → ℕ → ℕ → S → S
found_by w a zero s = s
found_by w a (suc n) s = found_by w (suc a) n (next_state w a s)

-- Attempt `a` fails with an error that is to be retried, and nothing ends the wait after it.
abbrev pub Fails : {S : Type 0} → RetryPolicy → Task S → ℕ → S → Type 0
Fails p w a s =
    (w.done_before a ≡ false)
    × (is_nil (outcome w s) ≡ false)
    × (should_retry p (outcome w s) ≡ true)
    × (w.done_during a ≡ false)

abbrev pub AllFail : {S : Type 0} → RetryPolicy → Task S → ℕ → ℕ → S → Type 0
AllFail p w a zero s = Unit
AllFail p w a (suc n) s = Fails p w a s × AllFail p w (suc a) n (next_state w a s)

-- The ways in which attempt `n` of `m + 1` is the last, with the state and the error that it leaves.
pub data Last {S : Type 0} (p : RetryPolicy) (w : Task S) (m n : ℕ) (s : S)
    : S × Error → Type 0 where
  too_late : w.done_before n ≡ true → Last p w m n s (s, wrapped retry_cancelled w.ctx_err)
  succeeds :
      w.done_before n ≡ false → is_nil (outcome w s) ≡ true → Last p w m n s ((w.fn s).0, nil)
  permanent :
      w.done_before n ≡ false
      → is_nil (outcome w s) ≡ false
      → should_retry p (outcome w s) ≡ false
      → Last p w m n s (w.fn s)
  exhausted :
      w.done_before n ≡ false
      → is_nil (outcome w s) ≡ false
      → should_retry p (outcome w s) ≡ true
      → n ≡ m
      → Last p w m n s ((w.fn s).0, wrapped (attempts_exceeded m) (outcome w s))
  interrupted :
      w.done_before n ≡ false
      → is_nil (outcome w s) ≡ false
      → should_retry p (outcome w s) ≡ true
      → n < m
      → w.done_during n ≡ true
      → Last p w m n s ((w.fn s).0, wrapped cancelled_during_backoff w.ctx_err)

-- From attempt `a` on, some number of attempts fail and the one after them is the last.
abbrev pub Ends : {S : Type 0} → RetryPolicy → Task S → ℕ → ℕ → S → S × Error → Type 0
Ends p w m a s r =
    (n : ℕ) × (a + n ≤ m) × AllFail p w a n s × Last p w m (a + n) (found_by w a n s) r

Ends-here :
    {S : Type 0} (p : RetryPolicy) (w : Task S) (m a : ℕ) (s : S) (r : S × Error)
    → a ≤ m
    → Last p w m a s r
    → Ends p w m a s r
unfolding found_by
Ends-here p w m a s r l h = (
  0,
  omega (arith, l),
  tt,
  subst (λ n. Last p w m n s r) (let q : a ≡ a + 0 = omega arith in q) h,
)

Ends-later :
    {S : Type 0} (p : RetryPolicy) (w : Task S) (m a : ℕ) (s : S) (r : S × Error)
    → Fails p w a s
    → Ends p w m (suc a) (next_state w a s) r
    → Ends p w m a s r
unfolding found_by
Ends-later p w m a s r f (n, l, g, h) = (
  suc n,
  omega (arith, l),
  (f, g),
  subst (λ i. Last p w m i (found_by w (suc a) n (next_state w a s)) r)
      (let q : suc a + n ≡ a + suc n = omega arith in q) h,
)

module _ {S : Type 0} (p : RetryPolicy) (w : Task S) where
  loop_too_late :
      (k a : ℕ) (x : Error) (s : S)
      → w.done_before a ≡ true
      → retry_loop p w (suc k) a x s ≡ (s, wrapped retry_cancelled w.ctx_err)
  unfolding retry_loop
  loop_too_late k a x s d = rw d refl

  loop_succeeds :
      (k a : ℕ) (x : Error) (s : S)
      → w.done_before a ≡ false
      → is_nil (outcome w s) ≡ true
      → retry_loop p w (suc k) a x s ≡ ((w.fn s).0, nil)
  unfolding retry_loop
  loop_succeeds k a x s d e = rw (d, e) refl

  pub loop_gives_up :
      (k a : ℕ) (x y : Error) (s : S)
      → w.done_before a ≡ false
      → is_nil (outcome w s) ≡ false
      → give_up p w a (outcome w s) ≡ some y
      → retry_loop p w (suc k) a x s ≡ ((w.fn s).0, y)
  unfolding retry_loop
  loop_gives_up k a x y s d e g = rw (d, e, g) refl

  pub loop_repeats :
      (k a : ℕ) (x : Error) (s : S)
      → w.done_before a ≡ false
      → is_nil (outcome w s) ≡ false
      → give_up p w a (outcome w s) ≡ none
      → retry_loop p w (suc k) a x s ≡ retry_loop p w k (suc a) (outcome w s) (next_state w a s)
  unfolding retry_loop
  loop_repeats k a x s d e g = rw (d, e, g) refl

  gives_permanent : (a : ℕ) (e : Error) → should_retry p e ≡ false → give_up p w a e ≡ some e
  unfolding give_up
  gives_permanent a e r = rw r refl

  pub gives_exhausted :
      (m a : ℕ) (e : Error)
      → p.max_attempts ≡ pos m
      → should_retry p e ≡ true
      → leb m a ≡ true
      → give_up p w a e ≡ some (wrapped (attempts_exceeded m) e)
  unfolding give_up
  gives_exhausted m a e h r l = rw (r, h, l) refl

  gives_interrupted :
      (m a : ℕ) (e : Error)
      → p.max_attempts ≡ pos m
      → should_retry p e ≡ true
      → leb m a ≡ false
      → w.done_during a ≡ true
      → give_up p w a e ≡ some (wrapped cancelled_during_backoff w.ctx_err)
  unfolding give_up
  gives_interrupted m a e h r l d = rw (r, h, l, d) refl

  pub gives_none :
      (m a : ℕ) (e : Error)
      → p.max_attempts ≡ pos m
      → should_retry p e ≡ true
      → leb m a ≡ false
      → w.done_during a ≡ false
      → give_up p w a e ≡ none
  unfolding give_up
  gives_none m a e h r l d = rw (r, h, l, d) refl

  -- One turn, where `rest` says how the turns after it end.
  turn-Ends :
      (m k a : ℕ) (x : Error) (s : S)
      → p.max_attempts ≡ pos m
      → a ≤ m
      → (a < m
          → Ends p w m
              (suc a)
              (next_state w a s)
              (retry_loop p w k (suc a) (outcome w s) (next_state w a s)))
      → Ends p w m a s (retry_loop p w (suc k) a x s)
  turn-Ends m k a x s h q rest =
      let y = outcome w s in
      elim (Bool-cases (w.done_before a)) [
        | inl d ↦ rw (loop_too_late k a x s d) (Ends-here p w m a s _ q (too_late d))
        | inr d ↦ elim (Bool-cases (is_nil y)) [
          | inl e ↦ rw (loop_succeeds k a x s d e) (Ends-here p w m a s _ q (succeeds d e))
          | inr e ↦ elim (Bool-cases (should_retry p y)) [
            | inr r ↦
                rw (loop_gives_up k a x y s d e (gives_permanent a y r))
                  (Ends-here p w m a s _ q (permanent d e r))
            | inl r ↦ elim (Bool-cases (leb m a)) [
              | inl l ↦
                  rw (loop_gives_up k a x _ s d e (gives_exhausted m a y h r l))
                    (Ends-here p w m a s _ q (exhausted d e r (let t : a ≡ m = ground arith in t)))
              | inr l ↦ elim (Bool-cases (w.done_during a)) [
                | inl c ↦ rw (loop_gives_up k a x _ s d e (gives_interrupted m a y h r l c)) (
                    Ends-here p w m a s _ q
                      (interrupted d e r (let t : a < m = ground arith in t) c))
                | inr c ↦
                    rw (loop_repeats k a x s d e (gives_none m a y h r l c)) (
                      Ends-later p w m a s _ (d, e, r, c)
                        (rest (let t : a < m = ground arith in t)))
              ]
            ]
          ]
        ]
      ]

  loop-Ends :
      (m k a : ℕ) (x : Error) (s : S)
      → p.max_attempts ≡ pos m
      → a + k ≡ m
      → Ends p w m a s (retry_loop p w (suc k) a x s)
  loop-Ends m zero a x s h q =
      turn-Ends m zero a x s h (omega (arith, q)) (λ l. absurd (omega (arith, l, q)))
  loop-Ends m (suc k) a x s h q =
      turn-Ends m (suc k) a x s h (omega (arith, q))
        (λ l. loop-Ends m k (suc a) (outcome w s) (next_state w a s) h (omega (arith, q)))

-- What a policy's number of attempts promises of the result.
abbrev pub Promised : {S : Type 0} → RetryPolicy → Task S → S → ℤ → S × Error → Type 0
Promised p w s (pos m) r = Ends p w m 0 s r
Promised p w s (negsuc m) r = r ≡ (s, nil)

retry_from :
    {S : Type 0} (p : RetryPolicy) (w : Task S) (s : S) (z : ℤ)
    → p.max_attempts ≡ z
    → Promised p w s z (retry_loop p w (turns z) 0 nil s)
unfolding retry_loop
retry_from p w s (pos m) h = loop-Ends p w m m 0 nil s h (omega arith)
retry_from p w s (negsuc m) h = refl

-- `RetryWithPolicy` with m retries makes the attempts 0 to n for some n of at most m: all before the
-- last fail with an error that the policy retries, each waits undisturbed and finds the state that the
-- one before it and the wait left, and the last one returns what it must: the context's error if the
-- context is done before the call; nil on success; the error itself where it is not to be retried;
-- and for an error that is, "max retry attempts exceeded" around it where n is m, and otherwise the
-- context's error, because it ended the wait. With a negative number it returns nil and calls nothing.
pub retry_exact :
    {S : Type 0} (p : RetryPolicy) (w : Task S) (s : S)
    → Promised p w s p.max_attempts (retry_with_policy (some p) w s)
unfolding retry_with_policy
retry_exact p w s = retry_from p w s p.max_attempts refl
