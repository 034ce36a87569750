-- ===== src/Pool.antt =====
-- pkg/pool/circuit_pool.go: the pool of circuits, one list for each isolation key.
-- Circuits are shared by pointer: a heap holds what the pool reads of them. The circuit builder is
-- outside the pool: it fails, or gives a new circuit in some state, without an isolation key. The
-- mutex makes each call one step but for ensureMinCircuits, which holds it only to count and to put.
pub mod Lists
pub mod Sound
pub mod Isolated
mod Tests
use go_tor.Prelude.{
  ℕ, zero, suc, ◌+◌, ◌-◌, ◌≡◌, Bool, true, false, List, [], ◌∷◌, ◌++◌, Option, none, some, leb,
  bytes_eq, if◌then◌else◌, length, get_elem?, set,
}
use go_tor.Circuit.Core.{State, state_closed, is_open}
use go_tor.Circuit.Isolation.{
  IsolationKey, IsolationLevel, isolation_none, isolation_destination, isolation_credential,
  isolation_port, isolation_session, key,
}

pub record Pooled : Type 0 where
  pub state : State
  pub isolation_key : Option IsolationKey

pub record CircuitPool : Type 0 where
  pub heap : List Pooled
  pub circuits : List ℕ
  pub isolated_circuits : List (List ℕ × List ℕ)
  pub min_circuits : ℕ
  pub max_circuits : ℕ

unfoldable pub new_circuit_pool : ℕ → ℕ → CircuitPool
new_circuit_pool min max = record {
  heap = [];
  circuits = [];
  isolated_circuits = [];
  min_circuits = min;
  max_circuits = max;
}

-- `p.isolatedCircuits[key]`
unfoldable pub pool_at : List ℕ → List (List ℕ × List ℕ) → List ℕ
pool_at k [] = []
pool_at k ((j, refs) ∷ m) = let rest = pool_at k m in if bytes_eq j k then refs else rest

unfoldable pub store_at : List ℕ → List ℕ → List (List ℕ × List ℕ) → List (List ℕ × List ℕ)
store_at k refs [] = (k, refs) ∷ []
store_at k refs ((j, old) ∷ m) =
    let rest = store_at k refs m in if bytes_eq j k then (j, refs) ∷ m else (j, old) ∷ rest

abbrev pub string_of_level : IsolationLevel → IsolationKey → Option (List ℕ)
string_of_level isolation_none k = none
string_of_level isolation_destination k = some (key (some k))
string_of_level isolation_credential k = some (key (some k))
string_of_level isolation_port k = some (key (some k))
string_of_level isolation_session k = some (key (some k))

-- The key of the list to use, or `none` for the list without isolation.
abbrev pub pool_key : Option IsolationKey → Option (List ℕ)
pool_key none = none
pool_key (some k) = string_of_level k.level k

abbrev pub pool_for : Option (List ℕ) → CircuitPool → List ℕ
pool_for none p = p.circuits
pool_for (some k) p = pool_at k p.isolated_circuits

unfoldable pub store_for : Option (List ℕ) → List ℕ → CircuitPool → CircuitPool
unfolding store_at
store_for none refs p = record p { circuits = refs }
store_for (some k) refs p = record p { isolated_circuits = store_at k refs p.isolated_circuits }

abbrev pub is_open_at : Option Pooled → Bool
is_open_at none = false
is_open_at (some c) = is_open c.state

-- The first open circuit and the list behind it; closed ones before it are discarded.
unfoldable pub pop_open : List Pooled → List ℕ → Option ℕ × List ℕ
pop_open heap [] = (none, [])
pop_open heap (r ∷ rs) =
    let rest = pop_open heap rs in if is_open_at (get_elem? heap r) then (some r, rs) else rest

-- The list is written back for each circuit that is taken off it.
abbrev pub after_pop : Option (List ℕ) → List ℕ → List ℕ → CircuitPool → CircuitPool
after_pop k [] left p = p
after_pop k (r ∷ rs) left p = store_for k left p

-- A new circuit with the key: `SetIsolationKey` with a nil key is not called, and the field is nil.
unfoldable pub build : Option IsolationKey → Option State → CircuitPool → CircuitPool × Option ℕ
build key none p = (p, none)
build key (some state) p = (
  record p { heap = p.heap ++ (record { state = state; isolation_key = key } ∷ []) },
  some (length p.heap),
)

abbrev pub or_build :
    Option IsolationKey → Option State → Option ℕ → CircuitPool → CircuitPool × Option ℕ
or_build key built (some r) p = (p, some r)
or_build key built none p = build key built p

-- `none` where the builder fails.
unfoldable pub get_with_isolation :
    Option State → Option IsolationKey → CircuitPool → CircuitPool × Option ℕ
unfolding pop_open store_for build
get_with_isolation built key p =
    let refs = pool_for (pool_key key) p in
    let popped = pop_open p.heap refs in
    or_build key built popped.0 (after_pop (pool_key key) refs popped.1 p)

unfoldable pub get : Option State → CircuitPool → CircuitPool × Option ℕ
unfolding get_with_isolation
get built = get_with_isolation built none

abbrev pub put_open : ℕ → Option (List ℕ) → CircuitPool → CircuitPool
put_open r k p =
    if leb p.max_circuits (length (pool_for k p))
    then p
    else store_for k (pool_for k p ++ (r ∷ [])) p

abbrev pub put_circuit : ℕ → Option Pooled → CircuitPool → CircuitPool
put_circuit r none p = p
put_circuit r (some c) p = if is_open c.state then put_open r (pool_key c.isolation_key) p else p

unfoldable pub put : ℕ → CircuitPool → CircuitPool
unfolding store_for
put r p = put_circuit r (get_elem? p.heap r) p

abbrev pub put_built : CircuitPool × Option ℕ → CircuitPool
put_built (p, none) = p
put_built (p, some r) = put r p

-- What others do to the pool while a circuit is built, before it is put.
abbrev pub meanwhile : (CircuitPool → CircuitPool) → CircuitPool × Option ℕ → CircuitPool × Option ℕ
meanwhile others (p, o) = (others p, o)

-- `needed` builds, with what the builder gives in each of them. The mutex is held in each Put only.
unfoldable pub prebuild :
    (ℕ → Option State) → (ℕ → CircuitPool → CircuitPool) → ℕ → CircuitPool → CircuitPool
unfolding put build
prebuild built others zero p = p
prebuild built others (suc needed) p =
    prebuild built others needed
      (put_built (meanwhile (others needed) (build none (built needed) p)))

-- The circuits are counted once, at the beginning.
unfoldable pub ensure_min_circuits :
    (ℕ → Option State) → (ℕ → CircuitPool → CircuitPool) → CircuitPool → CircuitPool
unfolding prebuild
ensure_min_circuits built others p =
    if leb p.min_circuits (length p.circuits)
    then p
    else prebuild built others (p.min_circuits - length p.circuits) p

unfoldable pub count_open : List Pooled → List ℕ → ℕ
count_open heap [] = 0
count_open heap (r ∷ rs) =
    let rest = count_open heap rs in if is_open_at (get_elem? heap r) then suc rest else rest

-- The lengths of the isolated lists and their open circuits.
unfoldable pub count_isolated : List Pooled → List (List ℕ × List ℕ) → ℕ × ℕ
unfolding count_open
count_isolated heap [] = (0, 0)
count_isolated heap ((k, refs) ∷ m) =
    let (n, o) = count_isolated heap m in (length refs + n, count_open heap refs + o)

pub record CircuitPoolStats : Type 0 where
  pub total : ℕ
  pub open_circuits : ℕ
  pub isolated_pools : ℕ
  pub isolated : ℕ

unfoldable pub pool_stats : CircuitPool → CircuitPoolStats
unfolding count_open count_isolated
pool_stats p =
    let counts = count_isolated p.heap p.isolated_circuits in
    record {
      total = length p.circuits + counts.0;
      open_circuits = count_open p.heap p.circuits + counts.1;
      isolated_pools = length p.isolated_circuits;
      isolated = counts.0;
    }

-- `circ.SetState(s)` through a reference.
abbrev pub state_at : State → Option Pooled → ℕ → List Pooled → List Pooled
state_at s none r heap = heap
state_at s (some c) r heap = set heap r (record c { state = s })

unfoldable pub close_refs : List ℕ → List Pooled → List Pooled
close_refs [] heap = heap
close_refs (r ∷ rs) heap = close_refs rs (state_at state_closed (get_elem? heap r) r heap)

unfoldable pub close_pools : List (List ℕ × List ℕ) → List Pooled → List Pooled
unfolding close_refs
close_pools [] heap = heap
close_pools ((k, refs) ∷ m) heap = close_pools m (close_refs refs heap)

unfoldable pub close_pool : CircuitPool → CircuitPool
unfolding close_refs close_pools
close_pool p = record p {
  heap = close_pools p.isolated_circuits (close_refs p.circuits p.heap);
  circuits = [];
  isolated_circuits = [];
}
