-- ===== src/Pool/Tests.antt =====
-- A run of the pool, and the witnesses.
use go_tor.Prelude.{
  ℕ, zero, suc, ◌≤◌, ◌≡◌, ◌≢◌, map, refl, true, List, [], ◌∷◌, some, none, length, get_elem?, All,
  arith,
}
use go_tor.Circuit.Core.{state_open, state_closed}
use go_tor.Circuit.Isolation.{
  IsolationKey, isolation_destination, with_destination, new_isolation_key, equals, level_number,
}
use go_tor.Pool.{Pooled, CircuitPool, new_circuit_pool, get_with_isolation, pool_stats}
use go_tor.Pool.Sound.{
  PoolStep, StepOk, PoolCall, step, gets, puts, brings, ensures, changes, pool_calls,
}
use go_tor.Pool.Isolated.{circuits_isolated}

abbrev key_a : IsolationKey
key_a = record {
  level = isolation_destination;
  destination = 97 ∷ 58 ∷ 49 ∷ [];
  credentials = [];
  source_port = 0;
  session_token = [];
}

abbrev key_b : IsolationKey
key_b = record key_a { destination = 98 ∷ 58 ∷ 49 ∷ [] }

-- The first circuit is put back while a prebuild round builds its last one.
abbrev others : ℕ → List PoolStep
others zero = puts 0 ∷ []
others (suc i) = []

-- Two circuits are built for the two keys and put back, two more without a key, and one with a key
-- comes from elsewhere.
abbrev some_calls : List PoolCall
some_calls =
    step (gets (some state_open) (some key_a))
    ∷ step (gets (some state_open) (some key_b))
    ∷ step (puts 1)
    ∷ ensures (λ i. some state_open) others
    ∷ step (brings (record { state = state_open; isolation_key = some key_a }))
    ∷ step (puts 4)
    ∷ []

others-Ok : (i : ℕ) → All StepOk (others i)
others-Ok zero = (tt, tt)
others-Ok (suc i) = tt

abbrev filled : CircuitPool
filled = pool_calls some_calls (new_circuit_pool 2 10)

lists_run : map (λ e. e.1) filled.isolated_circuits ≡ (1 ∷ []) ∷ (0 ∷ 4 ∷ []) ∷ []
unfolding pool_calls go_tor.Pool.ensure_min_circuits get_with_isolation go_tor.Pool.pool_at
    new_circuit_pool go_tor.Prelude.bytes_eq go_tor.Circuit.Isolation.key go_tor.Pool.Sound.bring
lists_run = refl

main_run : filled.circuits ≡ 2 ∷ 3 ∷ []
unfolding pool_calls go_tor.Pool.ensure_min_circuits get_with_isolation go_tor.Pool.pool_at
    new_circuit_pool go_tor.Prelude.bytes_eq go_tor.Circuit.Isolation.key go_tor.Pool.Sound.bring
main_run = refl

level_b : level_number key_b.level ≢ 0
unfolding level_number
level_b e = absurd (omega (arith, e))

reuse_run : (get_with_isolation none (some key_b) filled).1 ≡ some 1
unfolding pool_calls get_with_isolation go_tor.Pool.pool_at go_tor.Pool.ensure_min_circuits
    new_circuit_pool go_tor.Prelude.bytes_eq go_tor.Circuit.Isolation.key go_tor.Pool.Sound.bring
reuse_run = refl

-- A circuit that has been closed meanwhile is discarded, and a new one built.
closed_run :
    (get_with_isolation
      (some state_open)
      (some key_b)
      (pool_calls (step (changes 1 state_closed) ∷ []) filled)).1
    ≡ some 5
unfolding pool_calls get_with_isolation go_tor.Pool.pool_at go_tor.Pool.Sound.change_state
    go_tor.Pool.ensure_min_circuits new_circuit_pool go_tor.Prelude.bytes_eq
    go_tor.Circuit.Isolation.key go_tor.Pool.Sound.bring
closed_run = refl

circuits_isolated_example :
    (c : Pooled) × (j : IsolationKey) × (get_elem?
        (get_with_isolation none (some key_b) filled).0.heap
        1
      ≡ some c)
    × (c.isolation_key ≡ some j)
    × (equals (some j) (some key_b) ≡ true)
circuits_isolated_example =
    circuits_isolated some_calls 2 10 none key_b 1
      (omega arith, (omega arith, (tt, (others-Ok, (omega arith, (tt, tt)))))) (omega arith) level_b
      reuse_run
