-- ===== src/Pool/Isolated.antt =====
-- Circuits are handed out only for the isolation key that they were built for.
use go_tor.Prelude.{
  ℕ, zero, suc, ◌≤◌, ◌<◌, ◌≡◌, ◌≢◌, refl, subst, ◌∙◌, true, List, [], ◌∷◌, Option, none, some,
  length, get_elem?, All, arith,
}
use go_tor.Circuit.Core.{State}
use go_tor.Circuit.Isolation.{
  IsolationKey, IsolationLevel, isolation_none, isolation_destination, isolation_credential,
  isolation_port, isolation_session, key, equals, level_number,
}
use go_tor.Circuit.Isolation.Separate.{key-separates}
use go_tor.Pool.{Pooled, new_circuit_pool, string_of_level, pool_key, get_with_isolation}
use go_tor.Pool.Lists.{PoolsOk, PortOk, IsSound, get-Sound, get-KeyAt}
use go_tor.Pool.Sound.{PoolCall, CallOk, pool_calls, calls-Sound}

fresh-Sound : (min max : ℕ) → IsSound (new_circuit_pool min max)
unfolding new_circuit_pool
fresh-Sound min max = record { main_ok = (tt, omega arith); pools_ok = tt; ports_ok = tt }

string_of_level-some :
    (l : IsolationLevel) (k : IsolationKey)
    → level_number l ≢ 0
    → string_of_level l k ≡ some (key (some k))
unfolding level_number
string_of_level-some isolation_none k h = absurd (h refl)
string_of_level-some isolation_destination k h = refl
string_of_level-some isolation_credential k h = refl
string_of_level-some isolation_port k h = refl
string_of_level-some isolation_session k h = refl

string_of_level_is :
    (l : IsolationLevel) (k : IsolationKey) (s : List ℕ)
    → string_of_level l k ≡ some s
    → key (some k) ≡ s
string_of_level_is isolation_none k s h = absurd (cc)
string_of_level_is isolation_destination k s h = ground arith
string_of_level_is isolation_credential k s h = ground arith
string_of_level_is isolation_port k s h = ground arith
string_of_level_is isolation_session k s h = ground arith

-- A circuit that belongs in the list of a key has an equal key.
pool_key_equal :
    (o : Option IsolationKey) (k : IsolationKey)
    → PortOk o
    → k.source_port < 65536
    → pool_key o ≡ some (key (some k))
    → (j : IsolationKey) × (o ≡ some j) × (equals (some j) (some k) ≡ true)
pool_key_equal none k a b h = absurd (cc)
pool_key_equal (some j) k a b h =
    (j, refl, (key-separates j k a b).0 (string_of_level_is j.level j (key (some k)) h))

port_at :
    (heap : List Pooled) (r : ℕ) (c : Pooled)
    → All (λ x. PortOk x.isolation_key) heap
    → get_elem? heap r ≡ some c
    → PortOk c.isolation_key
port_at [] r c h e = absurd (cc)
port_at (x ∷ heap) zero c h e =
    let f : x ≡ c = ground arith in subst (λ y. PortOk y.isolation_key) f h.0
port_at (x ∷ heap) (suc r) c h e = port_at heap r c h.1 e

-- After any calls on a fresh pool, with the steps of others during the builds of a prebuild round,
-- whatever is put into it, circuits that were made elsewhere with keys of their own included, and
-- however the circuits change their state: a circuit that is handed out for an isolation key of a level
-- other than none carries an equal key. The source ports are uint16.
pub circuits_isolated :
    (cs : List PoolCall) (min max : ℕ) (built : Option State) (k : IsolationKey) (r : ℕ)
    → All CallOk cs
    → k.source_port < 65536
    → level_number k.level ≢ 0
    → let out = get_with_isolation built (some k) (pool_calls cs (new_circuit_pool min max)) in
      out.1 ≡ some r
      → (c : Pooled) × (j : IsolationKey) × (get_elem? out.0.heap r ≡ some c)
        × (c.isolation_key ≡ some j)
        × (equals (some j) (some k) ≡ true)
circuits_isolated cs min max built k r a b n e =
    let p = pool_calls cs (new_circuit_pool min max) in
    let h = calls-Sound cs (new_circuit_pool min max) a (fresh-Sound min max) in
    let g = get-Sound built (some k) p b h in
    let (c, f, i) = get-KeyAt built (some k) p r h e in
    let (j, s, q) =
      pool_key_equal c.isolation_key k (port_at _ r c g.ports_ok f) b
        (i ∙ string_of_level-some k.level k n) in
    (c, j, f, s, q)

pools_short :
    (heap : List Pooled) (max : ℕ) (m : List (List ℕ × List ℕ))
    → PoolsOk heap max m
    → All (λ e. length e.1 ≤ max) m
pools_short heap max [] h = tt
pools_short heap max (e ∷ m) h = (h.0.1, pools_short heap max m h.1)

-- After any calls on a fresh pool no list of it holds more circuits than its maximum.
pub pool_bounded :
    (cs : List PoolCall) (min max : ℕ)
    → All CallOk cs
    → let p = pool_calls cs (new_circuit_pool min max) in
      (length p.circuits ≤ p.max_circuits)
      × All (λ e. length e.1 ≤ p.max_circuits) p.isolated_circuits
pool_bounded cs min max a =
    let p = pool_calls cs (new_circuit_pool min max) in
    let h = calls-Sound cs (new_circuit_pool min max) a (fresh-Sound min max) in
    (h.main_ok.1, pools_short p.heap p.max_circuits p.isolated_circuits h.pools_ok)
