-- ===== src/Circuit/Manager/Close.antt =====
-- Closing a circuit, and closing the manager.
use go_tor.Prelude.{
  ℕ, ◌≡◌, ◌⊎◌, inl, inr, refl, sym, subst, ap, ◌∙◌, false, Bool-cases, Option-cases, List, [], ◌∷◌,
  Option, none, some, ◌==◌, get_elem?, All, arith,
}
use go_tor.Prelude.Refs.{
  find, delete, get_elem-set_same, get_elem-set_other, All-delete, All-ids-delete, Distinct-delete,
  find-delete, find-All,
}
use go_tor.Circuit.Core.{Circuit, State, state_closed, set_state}
use go_tor.Circuit.Manager.{
  Manager, Heap, Called, ManagerError, close_at, close_circuit, close_entry, closed_at,
  circuit_not_found,
}
use go_tor.Circuit.Manager.Create.{IsId}
use go_tor.Circuit.Manager.Valid.{IsValid, Refers}

-- The circuit behind a reference that is closed, and behind any other.
pub close_at_same :
    (heap : Heap) (r : ℕ) (c : Circuit)
    → get_elem? heap r ≡ some c
    → get_elem? (close_at r heap) r ≡ some (set_state state_closed c)
unfolding close_at closed_at
close_at_same heap r c h =
    ap (λ o. get_elem? (closed_at r heap o) r) h
    ∙ (get_elem-set_same heap r c (set_state state_closed c) h)

pub close_at_other :
    (heap : Heap) (r q : ℕ) → (q == r) ≡ false → get_elem? (close_at r heap) q ≡ get_elem? heap q
unfolding close_at closed_at
close_at_other heap r q h = elim (Option-cases (get_elem? heap r)) [
  | inl e ↦ ap (λ o. get_elem? (closed_at r heap o) q) e
  | inr (c, e) ↦
      ap (λ o. get_elem? (closed_at r heap o) q) e
      ∙ get_elem-set_other heap r q (set_state state_closed c) h
]

set_state_id : (s : State) (c : Circuit) → (set_state s c).id ≡ c.id
unfolding set_state
set_state_id s c = refl

Refers-close_at : (heap : Heap) (r : ℕ) (e : ℕ × ℕ) → Refers heap e → Refers (close_at r heap) e
Refers-close_at heap r (id, q) (c, g, i) = elim (Bool-cases (q == r)) [
  | inl k ↦ (
    set_state state_closed c,
    subst (λ x. get_elem? (close_at x heap) q ≡ some (set_state state_closed c)) (ground arith)
        (close_at_same heap q c g),
    set_state_id state_closed c ∙ i,
  )
  | inr k ↦ (c, close_at_other heap r q k ∙ g, i)
]

pub All-Refers-close_at :
    (heap : Heap) (r : ℕ) (m : List (ℕ × ℕ))
    → All (Refers heap) m
    → All (Refers (close_at r heap)) m
All-Refers-close_at heap r [] h = tt
All-Refers-close_at heap r (e ∷ m) h =
    (Refers-close_at heap r e h.0, All-Refers-close_at heap r m h.1)

close_found :
    (id r : ℕ) (heap : Heap) (m : Manager)
    → find id m.circuits ≡ some r
    → (close_circuit id heap m ≡ record {
      heap = close_at r heap;
      manager = record m { circuits = delete id m.circuits };
      result = none;
    })
unfolding close_circuit close_entry
close_found id r heap m h = ap (close_entry id heap m) h

close_missing :
    (id : ℕ) (heap : Heap) (m : Manager)
    → find id m.circuits ≡ none
    → (close_circuit id heap m
        ≡ record { heap = heap; manager = m; result = some circuit_not_found })
unfolding close_circuit close_entry
close_missing id heap m h = ap (close_entry id heap m) h

-- What `CloseCircuit` does, when the identifier is in the map and when it is not.
abbrev pub Closed : ℕ → Heap → Manager → Called (Option ManagerError) → Type 0
Closed id heap m r =
    ((find id m.circuits ≡ none)
      × (r ≡ record { heap = heap; manager = m; result = some circuit_not_found }))
    ⊎ ((q : ℕ) × (c : Circuit) × (find id m.circuits ≡ some q)
        × (c.id ≡ id)
        × (r.result ≡ none)
        × (get_elem? r.heap q ≡ some (set_state state_closed c))
        × (find id r.manager.circuits ≡ none)
        × ((p : ℕ) → (p == q) ≡ false → get_elem? r.heap p ≡ get_elem? heap p))

close-IsValid :
    (id q : ℕ) (heap : Heap) (m : Manager)
    → IsValid heap m
    → IsValid (close_at q heap) (record m { circuits = delete id m.circuits })
close-IsValid id q heap m v = record {
  next_nonzero = v.next_nonzero;
  next_bound = v.next_bound;
  distinct = Distinct-delete id m.circuits v.distinct;
  in_range = All-ids-delete IsId id m.circuits v.in_range;
  refers =
      All-Refers-close_at heap q (delete id m.circuits)
        (All-delete (Refers heap) id m.circuits v.refers);
}

-- `CloseCircuit` reports an unknown identifier and changes nothing then. Otherwise the circuit that
-- has the identifier is closed for everyone who holds it, the identifier is no longer in the map, no
-- other circuit changes, and the map stays in order.
pub close_circuit_exact :
    (id : ℕ) (heap : Heap) (m : Manager)
    → IsValid heap m
    → Closed id heap m (close_circuit id heap m)
      × IsValid (close_circuit id heap m).heap (close_circuit id heap m).manager
close_circuit_exact id heap m v = elim (Option-cases (find id m.circuits)) [
  | inl e ↦
      let k = close_missing id heap m e in
      (inl (e, k), subst (λ r. IsValid r.heap r.manager) (sym k) v)
  | inr (q, e) ↦
      let k = close_found id q heap m e in
      let (c, g, i) = find-All (Refers heap) id q m.circuits v.refers e in
      subst (λ r. Closed id heap m r × IsValid r.heap r.manager) (sym k)
        (
          inr (
            q,
            c,
            e,
            i,
            refl,
            close_at_same heap q c g,
            find-delete id m.circuits,
            λ p n. close_at_other heap q p n,
          ),
          close-IsValid id q heap m v,
        )
]
