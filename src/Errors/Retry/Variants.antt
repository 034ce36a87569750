-- ===== src/Errors/Retry/Variants.antt =====
-- The loops with statistics and with a callback against that of `RetryWithPolicy`.
use go_tor.Prelude.{
  ℕ, zero, suc, ◌+◌, ◌≤◌, ◌≡◌, ◌⊎◌, refl, sym, ◌∙◌, inl, inr, Bool, true, false, not, ◌&&◌, List,
  [], ◌∷◌, Option, ltb, Bool-cases, Option-cases, arith,
}
use go_tor.Security.Int.{ℤ, pos, negsuc}
use go_tor.Errors.Value.{Error, nil, foreign, wrapped, tor, is_nil, attempts_exceeded}
use go_tor.Errors.Retry.{
  RetryPolicy, Task, should_retry, retry_loop, retry_with_policy, turns, at_last, printed, give_up,
  RetryStats, new_stats, stats_loop, retry_with_stats, Called, callback_loop, retry_with_callback,
  or_default,
}
use go_tor.Errors.Retry.Attempts.{outcome, next_state}

-- The same state and error, which the statistics hold as well, with `k` more attempts than `n` at
-- most counted and no success claimed for an error.
pub record SameEnd {S : Type 0} (n k : ℕ) (r : S × (RetryStats × Error)) (q : S × Error)
    : Type 0 where
  pub same_state : r.0 ≡ q.0
  pub same_error : r.1.1 ≡ q.1
  pub error_kept : r.1.0.final_error ≡ q.1
  pub counted : r.1.0.total_attempts ≤ n + k
  pub claimed : r.1.0.successful_retry ≡ true → q.1 ≡ nil

module _ {S : Type 0} (p : RetryPolicy) (w : Task S) where
  ended :
      (k : ℕ) (t : RetryStats) (x : Error) (s : S)
      → t.successful_retry ≡ false
      → SameEnd t.total_attempts
          (suc k)
          (s, (record t { total_attempts = t.total_attempts + 1; final_error = x }, x))
          (s, x)
  ended k t x s b = record {
    same_state = refl;
    same_error = refl;
    error_kept = refl;
    counted = omega arith;
    claimed = λ c. absurd cc;
  }

  succeeded :
      (k : ℕ) (b : Bool) (t : RetryStats) (s : S)
      → t.final_error ≡ nil
      → SameEnd t.total_attempts
          (suc k)
          (s, (record t { total_attempts = t.total_attempts + 1; successful_retry = b }, nil))
          (s, nil)
  succeeded k b t s h = record {
    same_state = refl;
    same_error = refl;
    error_kept = h;
    counted = omega arith;
    claimed = λ c. refl;
  }

  one_more :
      (n k : ℕ) (r : S × (RetryStats × Error)) (q : S × Error)
      → SameEnd (n + 1) k r q
      → SameEnd n (suc k) r q
  one_more n k r q e = record {
    same_state = e.same_state;
    same_error = e.same_error;
    error_kept = e.error_kept;
    counted = omega (arith, e.counted);
    claimed = e.claimed;
  }

  loops_agree :
      (k a : ℕ) (x : Error) (t : RetryStats) (s : S)
      → t.final_error ≡ nil
      → t.successful_retry ≡ false
      → SameEnd t.total_attempts k (stats_loop p w k a x t s) (retry_loop p w k a x s)
  unfolding stats_loop retry_loop
  loops_agree zero a x t s h b = record {
    same_state = refl;
    same_error = refl;
    error_kept = refl;
    counted = omega arith;
    claimed = λ c. absurd cc;
  }
  loops_agree (suc k) a x t s h b = elim (Bool-cases (w.done_before a)) [
    | inl d ↦ rw d (ended k t _ _ b)
    | inr d ↦ elim (Bool-cases (is_nil (outcome w s))) [
      | inl e ↦ rw (d, e) (succeeded k (ltb 0 a) t _ h)
      | inr e ↦ elim (Option-cases (give_up p w a (outcome w s))) [
        | inr (y, g) ↦ rw (d, e, g) (ended k t _ _ b)
        | inl g ↦
            rw (d, e, g)
              (one_more _ k _ _ (loops_agree k (suc a) (outcome w s) _ (next_state w a s) h b))
      ]
    ]
  ]

-- The report of every call of the function from attempt `a` on, which finds `s`, with `k` turns left:
-- there is none only where the context is done before the call or no turn is left; otherwise it has the
-- attempt's number and its error, says that the function is called again exactly where the error is to
-- be retried and a turn is left, and nothing is reported after it unless it says so and the wait is not
-- ended by the context.
abbrev pub Logged : {S : Type 0} → RetryPolicy → Task S → ℕ → ℕ → S → List Called → Type 0
Logged p w zero a s cs = cs ≡ []
Logged p w (suc k) a s [] = w.done_before a ≡ true
Logged p w (suc k) a s (c ∷ cs) =
    (w.done_before a ≡ false)
    × (c.attempt ≡ a)
    × (c.error ≡ outcome w s)
    × (c.will_retry ≡ (not (is_nil (outcome w s)) && (should_retry p (outcome w s) && ltb 0 k)))
    × (c.will_retry ≡ false → cs ≡ [])
    × (w.done_during a ≡ true → cs ≡ [])
    × (c.will_retry ≡ true → w.done_during a ≡ false → Logged p w k (suc a) (next_state w a s) cs)

-- The same state, the error without the text that counts the attempts, and every call reported.
abbrev pub Reported :
    {S : Type 0} → RetryPolicy → Task S → ℕ → ℕ → S → S × (List Called × Error) → S × Error → Type 0
Reported p w k a s r q =
    (r.0 ≡ q.0)
    × ((q.1 ≡ r.1.1) ⊎ (q.1 ≡ wrapped (attempts_exceeded (printed p.max_attempts)) r.1.1))
    × Logged p w k a s r.1.0

is_nil→nil : (e : Error) → is_nil e ≡ true → e ≡ nil
is_nil→nil nil h = refl
is_nil→nil (foreign n) h = absurd (cc)
is_nil→nil (wrapped m e) h = absurd (cc)
is_nil→nil (tor t e) h = absurd (cc)

-- An attempt is the last exactly where no turn is left after it.
at_last-turns : (z : ℤ) (a k : ℕ) → a + suc k ≡ turns z → at_last a z ≡ not (ltb 0 k)
at_last-turns (pos m) a k h = ground arith
at_last-turns (negsuc m) a k h = absurd (omega (arith, h))

module _ {S : Type 0} (p : RetryPolicy) (w : Task S) where
  -- One report, and no other after it.
  last_report :
      (k a : ℕ) (s : S) (b : Bool) (e : Error)
      → w.done_before a ≡ false
      → e ≡ outcome w s
      → b ≡ (not (is_nil (outcome w s)) && (should_retry p (outcome w s) && ltb 0 k))
      → (b ≡ true → w.done_during a ≡ true)
      → Logged p w (suc k) a s (record { attempt = a; error = e; will_retry = b } ∷ [])
  last_report k a s b e d x y z =
      (d, refl, x, y, (λ f. refl), (λ f. refl), λ f g. absurd (let t = sym (z f) ∙ g in cc))

  loops_report :
      (k a : ℕ) (x : Error) (s : S)
      → a + k ≡ turns p.max_attempts
      → Reported p w k a s (callback_loop p w k a x s) (retry_loop p w k a x s)
  unfolding callback_loop retry_loop give_up
  loops_report zero a x s t = (refl, inl refl, refl)
  loops_report (suc k) a x s t =
      let last = at_last-turns p.max_attempts a k t in
      elim (Bool-cases (w.done_before a)) [
        | inl d ↦ rw d (refl, inl refl, d)
        | inr d ↦ elim (Bool-cases (is_nil (outcome w s))) [
          | inl e ↦
              rw (d, e)
                (
                  refl,
                  inl refl,
                  last_report k a s false nil d (sym (is_nil→nil (outcome w s) e)) (rw e refl)
                      (λ f. absurd (cc)),
                )
          | inr e ↦ elim (Bool-cases (should_retry p (outcome w s))) [
            | inr r ↦
                rw (d, e, r)
                  (
                    refl,
                    inl refl,
                    last_report k a s false (outcome w s) d refl (rw (e, r) refl)
                        (λ f. absurd (cc)),
                  )
            | inl r ↦ elim (Bool-cases (at_last a p.max_attempts)) [
              | inl l ↦
                  let n : ltb 0 k ≡ false = ground arith in
                  rw (d, e, r, l)
                    (
                      refl,
                      inr refl,
                      last_report k a s false (outcome w s) d refl (rw (e, r, n) refl)
                          (λ f. absurd (cc)),
                    )
              | inr l ↦
                  let n : ltb 0 k ≡ true = ground arith in
                  elim (Bool-cases (w.done_during a)) [
                    | inl c ↦
                        rw (d, e, r, l, c)
                          (
                            refl,
                            inl refl,
                            last_report k a s true (outcome w s) d refl (rw (e, r, n) refl)
                                (λ f. c),
                          )
                    | inr c ↦
                        rw (d, e, r, l, c)
                          (let (i, j, g) =
                              loops_report k (suc a) (outcome w s) (next_state w a s)
                                (omega (arith, t)) in
                            (
                              i,
                              j,
                              (
                                d,
                                refl,
                                refl,
                                rw (e, r, n) refl,
                                (λ f. absurd (cc)),
                                (λ f. absurd (let u = sym c ∙ f in cc)),
                                λ f h. g,
                              ),
                            ))
                  ]
            ]
          ]
        ]
      ]

-- `RetryWithStats` and `RetryWithCallbackFunc` make the same calls as `RetryWithPolicy` and leave the
-- same state. The first returns the same error, holds it in its statistics, counts at most the
-- attempts that the policy allows, and claims a successful retry only where the error is nil. The
-- second reports every call that it makes, in order, with the attempt's number and error, and says
-- that the function is called again exactly where the error is to be retried and attempts are left; it
-- returns the same error but for the text "max retry attempts exceeded" around it.
pub variants_agree :
    {S : Type 0} (o : Option RetryPolicy) (w : Task S) (s : S)
    → let p = or_default o in
      let k = turns p.max_attempts in
      SameEnd 0 k (retry_with_stats o w s) (retry_with_policy o w s)
      × Reported p w k 0 s (retry_with_callback o w s) (retry_with_policy o w s)
unfolding retry_with_policy retry_with_stats retry_with_callback
variants_agree o w s =
    let p = or_default o in
    (
      loops_agree p w (turns p.max_attempts) 0 nil new_stats s refl refl,
      loops_report p w (turns p.max_attempts) 0 nil s (omega arith),
    )
