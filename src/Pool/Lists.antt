-- ===== src/Pool/Lists.antt =====
-- The lists of the pool hold circuits of their key; handing one out keeps them so.
use go_tor.Prelude.{
  ℕ, zero, suc, ◌≤◌, ◌<◌, ◌≡◌, refl, sym, subst, inl, inr, true, List, [], ◌∷◌, ◌++◌, Option, none,
  some, bytes_eq, bytes_eq→eq, if◌then◌else◌, Bool-cases, length, get_elem?, All, All-append, arith,
}
use go_tor.Circuit.Core.{State}
use go_tor.Circuit.Isolation.{IsolationKey, key}
use go_tor.Pool.{
  Pooled, CircuitPool, pool_at, store_at, pool_key, pool_for, store_for, is_open_at, pop_open,
  after_pop, build, or_build, get_with_isolation,
}

-- The circuit that a reference points to belongs in the list of a key.
abbrev pub KeyAt : List Pooled → Option (List ℕ) → ℕ → Type 0
KeyAt heap k r = (c : Pooled) × (get_elem? heap r ≡ some c) × (pool_key c.isolation_key ≡ k)

-- A list of the pool: its circuits belong in it, and there are at most `max`.
abbrev pub ListOk : List Pooled → ℕ → Option (List ℕ) → List ℕ → Type 0
ListOk heap max k refs = All (KeyAt heap k) refs × (length refs ≤ max)

abbrev pub PoolsOk : List Pooled → ℕ → List (List ℕ × List ℕ) → Type 0
PoolsOk heap max m = All (λ e. ListOk heap max (some e.0) e.1) m

abbrev pub PortOk : Option IsolationKey → Type 0
PortOk none = Unit
PortOk (some k) = k.source_port < 65536

pub record IsSound (p : CircuitPool) : Type 0 where
  pub main_ok : ListOk p.heap p.max_circuits none p.circuits
  pub pools_ok : PoolsOk p.heap p.max_circuits p.isolated_circuits
  pub ports_ok : All (λ c. PortOk c.isolation_key) p.heap

pub pool_at-Ok :
    (heap : List Pooled) (max : ℕ) (k : List ℕ) (m : List (List ℕ × List ℕ))
    → PoolsOk heap max m
    → ListOk heap max (some k) (pool_at k m)
unfolding pool_at
pool_at-Ok heap max k [] h = (tt, omega arith)
pool_at-Ok heap max k ((j, refs) ∷ m) h = elim (Bool-cases (bytes_eq j k)) [
  | inl e ↦ rw e (subst (λ t. ListOk heap max (some t) refs) (bytes_eq→eq j k e) h.0)
  | inr e ↦ rw e (pool_at-Ok heap max k m h.1)
]

pub store_at-Ok :
    (heap : List Pooled) (max : ℕ) (k refs : List ℕ) (m : List (List ℕ × List ℕ))
    → PoolsOk heap max m
    → ListOk heap max (some k) refs
    → PoolsOk heap max (store_at k refs m)
unfolding store_at
store_at-Ok heap max k refs [] h l = (l, tt)
store_at-Ok heap max k refs ((j, old) ∷ m) h l = elim (Bool-cases (bytes_eq j k)) [
  | inl e ↦ rw e (subst (λ t. ListOk heap max (some t) refs) (sym (bytes_eq→eq j k e)) l, h.1)
  | inr e ↦ rw e (h.0, store_at-Ok heap max k refs m h.1 l)
]

pub pool_for-Ok :
    (k : Option (List ℕ)) (p : CircuitPool)
    → IsSound p
    → ListOk p.heap p.max_circuits k (pool_for k p)
pool_for-Ok none p h = h.main_ok
pool_for-Ok (some k) p h = pool_at-Ok p.heap p.max_circuits k p.isolated_circuits h.pools_ok

pub store_for-Ok :
    (k : Option (List ℕ)) (refs : List ℕ) (p : CircuitPool)
    → IsSound p
    → ListOk p.heap p.max_circuits k refs
    → IsSound (store_for k refs p)
unfolding store_for
store_for-Ok none refs p h l = record { main_ok = l; pools_ok = h.pools_ok; ports_ok = h.ports_ok }
store_for-Ok (some k) refs p h l = record {
  main_ok = h.main_ok;
  pools_ok = store_at-Ok p.heap p.max_circuits k refs p.isolated_circuits h.pools_ok l;
  ports_ok = h.ports_ok;
}

pub store_for-heap :
    (k : Option (List ℕ)) (refs : List ℕ) (p : CircuitPool) → (store_for k refs p).heap ≡ p.heap
unfolding store_for
store_for-heap none refs p = refl
store_for-heap (some k) refs p = refl

pub pop_open-Ok :
    (heap : List Pooled) (max : ℕ) (k : Option (List ℕ)) (refs : List ℕ)
    → ListOk heap max k refs
    → ListOk heap max k (pop_open heap refs).1
unfolding pop_open
pop_open-Ok heap max k [] h = h
pop_open-Ok heap max k (r ∷ rs) h = elim (Bool-cases (is_open_at (get_elem? heap r))) [
  | inl e ↦ rw e (h.0.1, omega (arith, h.1))
  | inr e ↦ rw e (pop_open-Ok heap max k rs (h.0.1, omega (arith, h.1)))
]

pub pop_open-KeyAt :
    (heap : List Pooled) (k : Option (List ℕ)) (refs : List ℕ) (q : ℕ)
    → All (KeyAt heap k) refs
    → (pop_open heap refs).0 ≡ some q
    → KeyAt heap k q × (is_open_at (get_elem? heap q) ≡ true)
unfolding pop_open
pop_open-KeyAt heap k [] q h f = absurd (cc)
pop_open-KeyAt heap k (r ∷ rs) q h f = elim (Bool-cases (is_open_at (get_elem? heap r))) [
  | inl e ↦
      let g = subst (λ b. (if b then (some r, rs) else pop_open heap rs).0 ≡ some q) e f in
      let i : r ≡ q = ground arith in
      subst (λ t. KeyAt heap k t × (is_open_at (get_elem? heap t) ≡ true)) i (h.0, e)
  | inr e ↦
      pop_open-KeyAt heap k rs q h.1
        (subst (λ b. (if b then (some r, rs) else pop_open heap rs).0 ≡ some q) e f)
]

pub after_pop-Sound :
    (k : Option (List ℕ)) (refs left : List ℕ) (p : CircuitPool)
    → IsSound p
    → ListOk p.heap p.max_circuits k left
    → IsSound (after_pop k refs left p)
after_pop-Sound k [] left p h l = h
after_pop-Sound k (r ∷ rs) left p h l = store_for-Ok k left p h l

pub after_pop-heap :
    (k : Option (List ℕ)) (refs left : List ℕ) (p : CircuitPool)
    → (after_pop k refs left p).heap ≡ p.heap
after_pop-heap k [] left p = refl
after_pop-heap k (r ∷ rs) left p = store_for-heap k left p

pub get_elem-append_some :
    (h k : List Pooled) (i : ℕ) (c : Pooled)
    → get_elem? h i ≡ some c
    → get_elem? (h ++ k) i ≡ some c
get_elem-append_some [] k i c e = absurd (cc)
get_elem-append_some (x ∷ h) k zero c e = e
get_elem-append_some (x ∷ h) k (suc i) c e = get_elem-append_some h k i c e

pub get_elem-appended :
    (h : List Pooled) (c : Pooled) → get_elem? (h ++ (c ∷ [])) (length h) ≡ some c
get_elem-appended [] c = refl
get_elem-appended (x ∷ h) c = get_elem-appended h c

-- A heap in which every circuit of the other is still found, with the same key.
abbrev pub Extends : List Pooled → List Pooled → Type 0
Extends heap more = (k : Option (List ℕ)) (r : ℕ) → KeyAt heap k r → KeyAt more k r

pub refs-Extends :
    (heap more : List Pooled) (k : Option (List ℕ)) (refs : List ℕ)
    → Extends heap more
    → All (KeyAt heap k) refs
    → All (KeyAt more k) refs
refs-Extends heap more k [] x h = tt
refs-Extends heap more k (r ∷ rs) x h = (x k r h.0, refs-Extends heap more k rs x h.1)

pub pools-Extends :
    (heap more : List Pooled) (max : ℕ) (m : List (List ℕ × List ℕ))
    → Extends heap more
    → PoolsOk heap max m
    → PoolsOk more max m
pools-Extends heap more max [] x h = tt
pools-Extends heap more max ((k, refs) ∷ m) x h =
    ((refs-Extends heap more (some k) refs x h.0.0, h.0.1), pools-Extends heap more max m x h.1)

pub heap-Sound :
    (more : List Pooled) (p : CircuitPool)
    → Extends p.heap more
    → All (λ c. PortOk c.isolation_key) more
    → IsSound p
    → IsSound (record p { heap = more })
heap-Sound more p x a h = record {
  main_ok = (refs-Extends p.heap more none p.circuits x h.main_ok.0, h.main_ok.1);
  pools_ok = pools-Extends p.heap more p.max_circuits p.isolated_circuits x h.pools_ok;
  ports_ok = a;
}

pub append-Extends : (heap : List Pooled) (c : Pooled) → Extends heap (heap ++ (c ∷ []))
append-Extends heap c k r (d, e, f) = (d, get_elem-append_some heap (c ∷ []) r d e, f)

pub build-Sound :
    (key : Option IsolationKey) (built : Option State) (p : CircuitPool)
    → PortOk key
    → IsSound p
    → IsSound (build key built p).0
unfolding build
build-Sound key none p a h = h
build-Sound key (some state) p a h =
    let c : Pooled = record { state = state; isolation_key = key } in
    heap-Sound (p.heap ++ (c ∷ [])) p (append-Extends p.heap c)
      (All-append _ p.heap (c ∷ []) h.ports_ok (a, tt)) h

pub or_build-Sound :
    (key : Option IsolationKey) (built : Option State) (o : Option ℕ) (p : CircuitPool)
    → PortOk key
    → IsSound p
    → IsSound (or_build key built o p).0
or_build-Sound key built (some r) p a h = h
or_build-Sound key built none p a h = build-Sound key built p a h

pub get-Sound :
    (built : Option State) (key : Option IsolationKey) (p : CircuitPool)
    → PortOk key
    → IsSound p
    → IsSound (get_with_isolation built key p).0
unfolding get_with_isolation
get-Sound built key p a h =
    let refs = pool_for (pool_key key) p in
    let l =
      pop_open-Ok p.heap p.max_circuits (pool_key key) refs (pool_for-Ok (pool_key key) p h) in
    or_build-Sound key built (pop_open p.heap refs).0 _ a
      (after_pop-Sound (pool_key key) refs (pop_open p.heap refs).1 p h l)

pub build-KeyAt :
    (key : Option IsolationKey) (built : Option State) (p : CircuitPool) (r : ℕ)
    → (build key built p).1 ≡ some r
    → KeyAt (build key built p).0.heap (pool_key key) r
unfolding build
build-KeyAt key none p r e = absurd (cc)
build-KeyAt key (some state) p r e =
    let c : Pooled = record { state = state; isolation_key = key } in
    let i : length p.heap ≡ r = ground arith in
    subst (KeyAt (p.heap ++ (c ∷ [])) (pool_key key)) i (c, get_elem-appended p.heap c, refl)

pub or_build-KeyAt :
    (key : Option IsolationKey) (built : Option State) (o : Option ℕ) (p : CircuitPool) (r : ℕ)
    → ((q : ℕ) → o ≡ some q → KeyAt p.heap (pool_key key) q)
    → (or_build key built o p).1 ≡ some r
    → KeyAt (or_build key built o p).0.heap (pool_key key) r
or_build-KeyAt key built (some q) p r f e = f r e
or_build-KeyAt key built none p r f e = build-KeyAt key built p r e

-- The circuit that is handed out belongs to the key.
pub get-KeyAt :
    (built : Option State) (key : Option IsolationKey) (p : CircuitPool) (r : ℕ)
    → IsSound p
    → (get_with_isolation built key p).1 ≡ some r
    → KeyAt (get_with_isolation built key p).0.heap (pool_key key) r
unfolding get_with_isolation
get-KeyAt built key p r h e =
    let refs = pool_for (pool_key key) p in
    let l = pool_for-Ok (pool_key key) p h in
    let left = (pop_open p.heap refs).1 in
    or_build-KeyAt key built (pop_open p.heap refs).0 (after_pop (pool_key key) refs left p) r
      (λ q f.
        subst (λ t. KeyAt t (pool_key key) q) (sym (after_pop-heap (pool_key key) refs left p))
          (pop_open-KeyAt p.heap (pool_key key) refs q l.0 f).0)
      e
