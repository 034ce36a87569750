-- ===== src/Circuit/Builder.antt =====
-- pkg/circuit/builder.go: circuits built along a path.
-- The text of a fingerprint and of an address is an argument, and so is whether the connection to the
-- guard is made. While it is made other calls may change the circuits: the build is two steps.
pub mod Built
mod Tests
use Prim.Native.String.{String}
use go_tor.Prelude.{
  ℕ, Bool, true, false, List, [], ◌∷◌, Option, none, some, Result, ok, err, get_elem?, set, ◌>>=◌,
  if◌then◌else◌,
}
use go_tor.Directory.{Relay}
use go_tor.Path.{Path3}
use go_tor.Circuit.Crypto.{Hop, new_hop}
use go_tor.Circuit.Core.{Circuit, State, CircuitError, add_hop, set_state, state_open, state_failed}
use go_tor.Circuit.Manager.{Heap, Manager, ManagerError, Called, Creation, create_circuit}

pub data BuildError : Type 0 where
  creation_failed : ManagerError → BuildError
  connection_failed add_hop_failed : BuildError

-- A hop that is refused fails the circuit with the hops it has.
abbrev pub next_hop :
    Hop
    → (Circuit → Circuit × Result BuildError (Unit {0}))
    → Circuit
    → Circuit × Result BuildError (Unit {0})
next_hop hop rest c = elim (add_hop hop c) [
  | err _ ↦ (set_state state_failed c, err add_hop_failed)
  | ok c' ↦ rest c'
]

module _ (fingerprint_text address_text : Relay → String) where
  unfoldable pub hop_of : Relay → Bool → Bool → Hop
  hop_of r is_guard is_exit = new_hop (fingerprint_text r) (address_text r) is_guard is_exit

  -- The three hops, and the circuit is open.
  unfoldable pub extend_along : Path3 → Circuit → Circuit × Result BuildError (Unit {0})
  unfolding hop_of
  extend_along p = next_hop (hop_of p.guard true false) (
      next_hop (hop_of p.middle false false)
        (next_hop (hop_of p.exit false true) (λ c. (set_state state_open c, ok tt))))

  -- `BuildCircuit` up to the connection: the circuit is registered with the manager.
  unfoldable pub start_build : ℕ → Heap → Manager → Creation
  start_build = create_circuit

  abbrev pub finish_at : Bool → Path3 → ℕ → Heap → Option Circuit → Heap × Result BuildError ℕ
  finish_at connected p r heap none = (heap, err connection_failed)
  finish_at false p r heap (some c) = (set heap r (set_state state_failed c), err connection_failed)
  finish_at true p r heap (some c) =
      let (c', result) = extend_along p c in (set heap r c', result >>= λ _. ok r)

  -- `BuildCircuit` from the connection on, on the circuits as they are then.
  unfoldable pub finish_build : Bool → Path3 → ℕ → Heap → Heap × Result BuildError ℕ
  unfolding extend_along
  finish_build connected p r heap = finish_at connected p r heap (get_elem? heap r)
