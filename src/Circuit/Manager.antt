-- ===== src/Circuit/Manager.antt =====
-- pkg/circuit/circuit.go: the manager of the circuits.
-- A circuit is an object that its callers share, so the circuits live in a heap of their own, and the
-- manager's map holds references to it. Circuits are only added to the heap. A Go map is an
-- association list without repeated keys; the order of a range over it does not matter here.
pub mod Create
pub mod Valid
pub mod Close
pub mod Shutdown
mod Tests
use go_tor.Prelude.{
  ℕ, zero, suc, ◌+◌, ◌*◌, ◌%◌, ◌^◌, Bool, true, false, List, [], ◌∷◌, ◌++◌, Option, none, some,
  Result, ok, err, ◌==◌, if◌then◌else◌, length, get_elem?, set, map,
}
use go_tor.Prelude.Subset.{elem}
use go_tor.Prelude.Refs.{find, delete, ids}
use go_tor.Circuit.Core.{Circuit, new_circuit, set_state, state_closed}

pub record Manager : Type 0 where
  pub circuits : List (ℕ × ℕ)  -- from uint32 identifiers to references
  pub next_id : ℕ  -- uint32
  pub closed : Bool

abbrev pub Heap : Type 0
Heap = List Circuit

unfoldable pub new_manager : Manager
new_manager = record { circuits = []; next_id = 1; closed = false }

abbrev pub u32 : ℕ → ℕ
u32 n = n % 2 ^ 32

-- The next identifier, which skips zero.
unfoldable pub next : ℕ → ℕ
next id = if u32 (id + 1) == 0 then 1 else u32 (id + 1)

pub data ManagerError : Type 0 where
  manager_closed no_available_ids circuit_not_found already_closed : ManagerError

-- The loop that looks for an unused identifier: `none` is a loop that has not ended within the fuel.
unfoldable pub search : ℕ → ℕ → List ℕ → ℕ → Option (Result ManagerError ℕ)
search zero start used id = none
search (suc fuel) start used id =
    let later = search fuel start used (next id) in
    if elem id used
    then (if next id == start then some (err no_available_ids) else later)
    else some (ok id)

-- The result of a call: the heap, the manager and what is returned.
pub record Called (A : Type 0) : Type 0 where
  pub heap : Heap
  pub manager : Manager
  pub result : A

abbrev pub Creation : Type 0
Creation = Option (Called (Result ManagerError ℕ))

-- What `CreateCircuit` does with the result of the loop; the circuit is returned by its reference.
created : ℕ → Heap → Manager → Option (Result ManagerError ℕ) → Creation
created now heap m none = none
created now heap m (some (err e)) = some (record { heap = heap; manager = m; result = err e })
created now heap m (some (ok id)) = some (record {
  heap = heap ++ (new_circuit now id ∷ []);
  manager = record m { circuits = (id, length heap) ∷ m.circuits; next_id = next id };
  result = ok (length heap);
})

-- One round for each circuit of the map, and one more.
unfoldable pub create_circuit : ℕ → Heap → Manager → Creation
unfolding created
create_circuit now heap m =
    if m.closed
    then some (record { heap = heap; manager = m; result = err manager_closed })
    else created now heap m (search (suc (length m.circuits)) m.next_id (ids m.circuits) m.next_id)

unfoldable pub get_circuit : ℕ → Manager → Result ManagerError ℕ
get_circuit id m = elim (find id m.circuits) [ none ↦ err circuit_not_found | some r ↦ ok r ]

-- `SetState(StateClosed)` on the object a reference stands for.
closed_at : ℕ → Heap → Option Circuit → Heap
closed_at r heap none = heap
closed_at r heap (some c) = set heap r (set_state state_closed c)

unfoldable pub close_at : ℕ → Heap → Heap
unfolding closed_at
close_at r heap = closed_at r heap (get_elem? heap r)

-- What `CloseCircuit` does with the entry of the map.
close_entry : ℕ → Heap → Manager → Option ℕ → Called (Option ManagerError)
close_entry id heap m none = record { heap = heap; manager = m; result = some circuit_not_found }
close_entry id heap m (some r) = record {
  heap = close_at r heap;
  manager = record m { circuits = delete id m.circuits };
  result = none;
}

unfoldable pub close_circuit : ℕ → Heap → Manager → Called (Option ManagerError)
unfolding close_entry
close_circuit id heap m = close_entry id heap m (find id m.circuits)

unfoldable pub list_circuits : Manager → List ℕ
list_circuits m = ids m.circuits

unfoldable pub count : Manager → ℕ
count m = length m.circuits

-- The range over the map, which empties it.
unfoldable pub close_all : List (ℕ × ℕ) → Heap → Heap
unfolding close_at
close_all [] heap = heap
close_all ((id, r) ∷ m) heap = close_all m (close_at r heap)

unfoldable pub close_manager : Heap → Manager → Called (Option ManagerError)
unfolding close_all
close_manager heap m =
    if m.closed then record { heap = heap; manager = m; result = some already_closed } else record {
      heap = close_all m.circuits heap;
      manager = record m { closed = true; circuits = [] };
      result = none;
    }

unfoldable pub is_closed : Manager → Bool
is_closed m = m.closed
