-- ===== src/Circuit/Manager/Tests.antt =====
-- The manager's theorems at concrete maps.
use go_tor.Prelude.{ℕ, ◌≡◌, refl, false, [], ◌∷◌, some, Result, arith}
use go_tor.Prelude.Subset.{elem}
use go_tor.Circuit.Core.{new_circuit}
use go_tor.Circuit.Manager.{Manager, Heap, Called, ManagerError, create_circuit, close_manager}
use go_tor.Circuit.Manager.Valid.{IsValid, Created, create_circuit_exact}
use go_tor.Circuit.Manager.Shutdown.{ShutDown, close_manager_exact}

-- The next identifier is the last one, and it is in use.
abbrev two : Manager
two = record { circuits = (4294967295, 0) ∷ (2, 1) ∷ []; next_id = 4294967295; closed = false }

abbrev heap : Heap
heap = new_circuit 5 4294967295 ∷ new_circuit 6 2 ∷ []

two-IsValid : IsValid heap two
unfolding elem new_circuit
two-IsValid = record {
  next_nonzero = omega arith;
  next_bound = omega arith;
  distinct = (ground arith, (refl, tt));
  in_range = ((omega arith, omega arith), ((omega arith, omega arith), tt));
  refers = ((new_circuit 5 4294967295, refl, refl), ((new_circuit 6 2, refl, refl), tt));
}

create_circuit_exact_example :
    (r : Called (Result ManagerError ℕ)) × (create_circuit 7 heap two ≡ some r)
    × Created 7 heap two r
    × IsValid r.heap r.manager
create_circuit_exact_example = create_circuit_exact 7 heap two two-IsValid

close_manager_exact_example : ShutDown two 9 heap (close_manager heap two)
close_manager_exact_example = close_manager_exact heap two 9 heap two-IsValid refl
