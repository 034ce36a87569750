-- ===== src/Circuit/Manager/Shutdown.antt =====
-- Closing the manager.
use go_tor.Prelude.{
  ℕ, ◌≡◌, inl, inr, refl, sym, subst, ◌∙◌, true, false, Bool-cases, List, [], ◌∷◌, Option, none,
  some, err, ◌==◌, get_elem?, All, arith,
}
use go_tor.Circuit.Core.{Circuit, State, state_closed, set_state}
use go_tor.Circuit.Manager.{
  Manager, Heap, Called, ManagerError, close_at, close_all, close_manager, create_circuit,
  manager_closed, already_closed,
}
use go_tor.Circuit.Manager.Valid.{IsValid, Refers, create_refused}
use go_tor.Circuit.Manager.Close.{close_at_same, close_at_other, All-Refers-close_at}

-- The circuit behind a reference is closed.
abbrev pub IsClosedAt : Heap → ℕ → Type 0
IsClosedAt heap r = (c : Circuit) × (get_elem? heap r ≡ some c) × (c.state ≡ state_closed)

state-set_state : (s : State) (c : Circuit) → (set_state s c).state ≡ s
unfolding set_state
state-set_state s c = refl

IsClosedAt-close_at : (heap : Heap) (r q : ℕ) → IsClosedAt heap q → IsClosedAt (close_at r heap) q
IsClosedAt-close_at heap r q (c, g, s) = elim (Bool-cases (q == r)) [
  | inl k ↦ (
    set_state state_closed c,
    subst (λ x. get_elem? (close_at x heap) q ≡ some (set_state state_closed c)) (ground arith)
        (close_at_same heap q c g),
    state-set_state state_closed c,
  )
  | inr k ↦ (c, close_at_other heap r q k ∙ g, s)
]

IsClosedAt-close_all :
    (m : List (ℕ × ℕ)) (heap : Heap) (q : ℕ) → IsClosedAt heap q → IsClosedAt (close_all m heap) q
unfolding close_all
IsClosedAt-close_all [] heap q h = h
IsClosedAt-close_all ((id, r) ∷ m) heap q h =
    IsClosedAt-close_all m (close_at r heap) q (IsClosedAt-close_at heap r q h)

close_all_closes :
    (m : List (ℕ × ℕ)) (heap : Heap)
    → All (Refers heap) m
    → All (λ e. IsClosedAt (close_all m heap) e.1) m
unfolding close_all
close_all_closes [] heap h = tt
close_all_closes ((id, r) ∷ m) heap ((c, g, i), h) = (
  IsClosedAt-close_all m (close_at r heap) r
      (set_state state_closed c, close_at_same heap r c g, state-set_state state_closed c),
  close_all_closes m (close_at r heap) (All-Refers-close_at heap r m h),
)

close_manager_open :
    (heap : Heap) (m : Manager)
    → m.closed ≡ false
    → (close_manager heap m ≡ record {
      heap = close_all m.circuits heap;
      manager = record m { closed = true; circuits = [] };
      result = none;
    })
unfolding close_manager
close_manager_open heap m h = rw h refl

close_manager_again :
    (heap : Heap) (m : Manager)
    → m.closed ≡ true
    → (close_manager heap m ≡ record { heap = heap; manager = m; result = some already_closed })
unfolding close_manager
close_manager_again heap m h = rw h refl

-- What a Close that succeeds leaves, whatever the heap is when the manager is next called.
abbrev pub ShutDown : Manager → ℕ → Heap → Called (Option ManagerError) → Type 0
ShutDown m now later r =
    All (λ e. IsClosedAt r.heap e.1) m.circuits
    × (r.manager.circuits ≡ [])
    × (r.result ≡ none)
    × (close_manager later r.manager
        ≡ record { heap = later; manager = r.manager; result = some already_closed })
    × (create_circuit now later r.manager
        ≡ some (record { heap = later; manager = r.manager; result = err manager_closed }))

-- Closing the manager closes every circuit of its map, empties the map and succeeds; on the manager
-- it leaves, a second Close reports the error and changes nothing, and every attempt to create a
-- circuit is refused.
pub close_manager_exact :
    (heap : Heap) (m : Manager) (now : ℕ) (later : Heap)
    → IsValid heap m
    → m.closed ≡ false
    → ShutDown m now later (close_manager heap m)
close_manager_exact heap m now later v h =
    subst (ShutDown m now later) (sym (close_manager_open heap m h)) (
      close_all_closes m.circuits heap v.refers,
      refl,
      refl,
      close_manager_again later _ refl,
      create_refused now later _ refl,
    )
