-- ===== src/Pool/Sound.antt =====
-- Every call keeps the lists of the pool sound.
use go_tor.Prelude.{
  ℕ, zero, suc, ◌-◌, ◌≤◌, ◌≡◌, refl, sym, subst, ◌∙◌, inl, inr, ◌==◌, List, [], ◌∷◌, ◌++◌, Option,
  none, some, leb, Bool-cases, Option-cases, length, length-append, get_elem?, set, All, All-append,
  arith,
}
use go_tor.Prelude.Refs.{get_elem-set_same, get_elem-set_other}
use go_tor.Circuit.Core.{State, state_closed, is_open}
use go_tor.Circuit.Isolation.{IsolationKey, key}
use go_tor.Pool.{
  Pooled, CircuitPool, pool_key, pool_for, build, get_with_isolation, put_open, put, put_built,
  meanwhile, prebuild, ensure_min_circuits, state_at, close_refs, close_pools, close_pool,
}
use go_tor.Pool.Lists.{
  KeyAt, PortOk, IsSound, pool_for-Ok, store_for-Ok, Extends, heap-Sound, append-Extends,
  build-Sound, get-Sound,
}

put_open-Sound :
    (r : ℕ) (k : Option (List ℕ)) (p : CircuitPool)
    → IsSound p
    → KeyAt p.heap k r
    → IsSound (put_open r k p)
put_open-Sound r k p h a = elim (Bool-cases (leb p.max_circuits (length (pool_for k p)))) [
  | inl e ↦ rw e h
  | inr e ↦
      let l = pool_for-Ok k p h in
      let n : length (pool_for k p ++ (r ∷ [])) ≤ p.max_circuits =
        ground (arith, length-append (pool_for k p) (r ∷ [])) in
      rw e (
        store_for-Ok k (pool_for k p ++ (r ∷ [])) p h
          (All-append _ (pool_for k p) (r ∷ []) l.0 (a, tt), n))
]

put-Sound : (r : ℕ) (p : CircuitPool) → IsSound p → IsSound (put r p)
unfolding put
put-Sound r p h = elim (Option-cases (get_elem? p.heap r)) [
  | inl e ↦ rw e h
  | inr (c, e) ↦ elim (Bool-cases (is_open c.state)) [
    | inl o ↦ rw (e, o) (put_open-Sound r (pool_key c.isolation_key) p h (c, e, refl))
    | inr o ↦ rw (e, o) h
  ]
]

put_built-Sound : (x : CircuitPool × Option ℕ) → IsSound x.0 → IsSound (put_built x)
put_built-Sound (p, none) h = h
put_built-Sound (p, some r) h = put-Sound r p h

-- What others do keeps the pool sound.
abbrev Keeps : (CircuitPool → CircuitPool) → Type 0
Keeps f = (p : CircuitPool) → IsSound p → IsSound (f p)

meanwhile-Sound :
    (others : CircuitPool → CircuitPool) (x : CircuitPool × Option ℕ)
    → Keeps others
    → IsSound x.0
    → IsSound (meanwhile others x).0
meanwhile-Sound others (p, o) k h = k p h

prebuild-Sound :
    (built : ℕ → Option State) (others : ℕ → CircuitPool → CircuitPool) (needed : ℕ)
    (p : CircuitPool)
    → ((i : ℕ) → Keeps (others i))
    → IsSound p
    → IsSound (prebuild built others needed p)
unfolding prebuild
prebuild-Sound built others zero p k h = h
prebuild-Sound built others (suc needed) p k h =
    let x = build none (built needed) p in
    prebuild-Sound built others needed (put_built (meanwhile (others needed) x)) k (
      put_built-Sound (meanwhile (others needed) x)
        (meanwhile-Sound (others needed) x (k needed) (build-Sound none (built needed) p tt h)))

ensure-Sound :
    (built : ℕ → Option State) (others : ℕ → CircuitPool → CircuitPool) (p : CircuitPool)
    → ((i : ℕ) → Keeps (others i))
    → IsSound p
    → IsSound (ensure_min_circuits built others p)
unfolding ensure_min_circuits
ensure-Sound built others p k h = elim (Bool-cases (leb p.min_circuits (length p.circuits))) [
  | inl e ↦ rw e h
  | inr e ↦ rw e (prebuild-Sound built others (p.min_circuits - length p.circuits) p k h)
]

state-Extends :
    (s : State) (heap : List Pooled) (r : ℕ) (c : Pooled)
    → get_elem? heap r ≡ some c
    → Extends heap (set heap r (record c { state = s }))
state-Extends s heap r c e k q (d, f, g) = elim (Bool-cases (q == r)) [
  | inl i ↦
      let j : q ≡ r = ground arith in
      let same : d ≡ c = (let t = subst (λ x. get_elem? heap x ≡ some d) j f in ground arith) in
      subst (KeyAt (set heap r (record c { state = s })) k) (sym j) (
        record c { state = s },
        get_elem-set_same heap r c (record c { state = s }) e,
        subst (λ x. pool_key x.isolation_key ≡ k) same g,
      )
  | inr i ↦ (d, get_elem-set_other heap r q (record c { state = s }) i ∙ f, g)
]

state-Ports :
    (s : State) (heap : List Pooled) (r : ℕ) (c : Pooled)
    → get_elem? heap r ≡ some c
    → All (λ x. PortOk x.isolation_key) heap
    → All (λ x. PortOk x.isolation_key) (set heap r (record c { state = s }))
state-Ports s [] r c e h = tt
state-Ports s (x ∷ heap) zero c e h =
    let f : x ≡ c = ground arith in (subst (λ y. PortOk y.isolation_key) f h.0, h.1)
state-Ports s (x ∷ heap) (suc r) c e h = (h.0, state-Ports s heap r c e h.1)

-- `SetState` on a circuit, by the pool or by another holder of it.
unfoldable pub change_state : ℕ → State → CircuitPool → CircuitPool
change_state r s p = record p { heap = state_at s (get_elem? p.heap r) r p.heap }

change_state-Sound :
    (r : ℕ) (s : State) (p : CircuitPool) → IsSound p → IsSound (change_state r s p)
unfolding change_state
change_state-Sound r s p h = elim (Option-cases (get_elem? p.heap r)) [
  | inl e ↦ rw e h
  | inr (c, e) ↦
      rw e (heap-Sound _ p (state-Extends s p.heap r c e) (state-Ports s p.heap r c e h.ports_ok) h)
]

close_refs-Ports :
    (refs : List ℕ) (heap : List Pooled)
    → All (λ x. PortOk x.isolation_key) heap
    → All (λ x. PortOk x.isolation_key) (close_refs refs heap)
unfolding close_refs
close_refs-Ports [] heap h = h
close_refs-Ports (r ∷ rs) heap h = elim (Option-cases (get_elem? heap r)) [
  | inl e ↦
      subst
        (λ o. All (λ x. PortOk x.isolation_key) (close_refs rs (state_at state_closed o r heap)))
        (sym e) (close_refs-Ports rs heap h)
  | inr (c, e) ↦
      subst
        (λ o. All (λ x. PortOk x.isolation_key) (close_refs rs (state_at state_closed o r heap)))
        (sym e)
        (close_refs-Ports rs (set heap r (record c { state = state_closed }))
          (state-Ports state_closed heap r c e h))
]

close_pools-Ports :
    (m : List (List ℕ × List ℕ)) (heap : List Pooled)
    → All (λ x. PortOk x.isolation_key) heap
    → All (λ x. PortOk x.isolation_key) (close_pools m heap)
unfolding close_pools
close_pools-Ports [] heap h = h
close_pools-Ports ((k, refs) ∷ m) heap h =
    close_pools-Ports m (close_refs refs heap) (close_refs-Ports refs heap h)

close_pool-Sound : (p : CircuitPool) → IsSound p → IsSound (close_pool p)
unfolding close_pool
close_pool-Sound p h = record {
  main_ok = (tt, omega arith);
  pools_ok = tt;
  ports_ok =
      close_pools-Ports p.isolated_circuits (close_refs p.circuits p.heap)
        (close_refs-Ports p.circuits p.heap h.ports_ok);
}

-- A circuit that was made outside the pool, with any key, comes into reach of a Put.
unfoldable pub bring : Pooled → CircuitPool → CircuitPool
bring c p = record p { heap = p.heap ++ (c ∷ []) }

bring-Sound :
    (c : Pooled) (p : CircuitPool) → PortOk c.isolation_key → IsSound p → IsSound (bring c p)
unfolding bring
bring-Sound c p a h =
    heap-Sound (p.heap ++ (c ∷ [])) p (append-Extends p.heap c)
      (All-append _ p.heap (c ∷ []) h.ports_ok (a, tt)) h

-- The calls on a pool, and what happens to circuits outside it, that are one step each.
pub data PoolStep : Type 0 where
  gets : Option State → Option IsolationKey → PoolStep
  puts : ℕ → PoolStep
  brings : Pooled → PoolStep
  changes : ℕ → State → PoolStep
  closes : PoolStep

unfoldable pub pool_step : PoolStep → CircuitPool → CircuitPool
pool_step (gets built key) p = (get_with_isolation built key p).0
pool_step (puts r) p = put r p
pool_step (brings c) p = bring c p
pool_step (changes r s) p = change_state r s p
pool_step closes p = close_pool p

unfoldable pub pool_steps : List PoolStep → CircuitPool → CircuitPool
unfolding pool_step
pool_steps [] p = p
pool_steps (c ∷ cs) p = pool_steps cs (pool_step c p)

-- A step, or a round of the prebuild loop with the steps that others make during each build.
pub data PoolCall : Type 0 where
  step : PoolStep → PoolCall
  ensures : (ℕ → Option State) → (ℕ → List PoolStep) → PoolCall

unfoldable pub pool_call : PoolCall → CircuitPool → CircuitPool
unfolding pool_step pool_steps
pool_call (step s) p = pool_step s p
pool_call (ensures built others) p = ensure_min_circuits built (λ i. pool_steps (others i)) p

unfoldable pub pool_calls : List PoolCall → CircuitPool → CircuitPool
unfolding pool_call
pool_calls [] p = p
pool_calls (c ∷ cs) p = pool_calls cs (pool_call c p)

-- The source ports are uint16.
abbrev pub StepOk : PoolStep → Type 0
StepOk (gets built key) = PortOk key
StepOk (brings c) = PortOk c.isolation_key
StepOk _ = Unit

abbrev pub CallOk : PoolCall → Type 0
CallOk (step s) = StepOk s
CallOk (ensures built others) = (i : ℕ) → All StepOk (others i)

step-Sound : (c : PoolStep) (p : CircuitPool) → StepOk c → IsSound p → IsSound (pool_step c p)
unfolding pool_step
step-Sound (gets built key) p a h = get-Sound built key p a h
step-Sound (puts r) p a h = put-Sound r p h
step-Sound (brings c) p a h = bring-Sound c p a h
step-Sound (changes r s) p a h = change_state-Sound r s p h
step-Sound closes p a h = close_pool-Sound p h

steps-Sound :
    (cs : List PoolStep) (p : CircuitPool) → All StepOk cs → IsSound p → IsSound (pool_steps cs p)
unfolding pool_steps
steps-Sound [] p a h = h
steps-Sound (c ∷ cs) p a h = steps-Sound cs (pool_step c p) a.1 (step-Sound c p a.0 h)

call-Sound : (c : PoolCall) (p : CircuitPool) → CallOk c → IsSound p → IsSound (pool_call c p)
unfolding pool_call
call-Sound (step s) p a h = step-Sound s p a h
call-Sound (ensures built others) p a h =
    ensure-Sound built (λ i. pool_steps (others i)) p (λ i q k. steps-Sound (others i) q (a i) k) h

pub calls-Sound :
    (cs : List PoolCall) (p : CircuitPool) → All CallOk cs → IsSound p → IsSound (pool_calls cs p)
unfolding pool_calls
calls-Sound [] p a h = h
calls-Sound (c ∷ cs) p a h = calls-Sound cs (pool_call c p) a.1 (call-Sound c p a.0 h)
