-- ===== src/Circuit/Manager/Valid.antt =====
-- The manager's map and heap stay in order through its calls.
use go_tor.Prelude.{
  ℕ, zero, suc, ◌≤◌, ◌<◌, ◌≡◌, ◌⊎◌, inl, inr, refl, ap, ◌∙◌, true, false, Bool-cases, List, [], ◌∷◌,
  ◌++◌, Option, some, Result, ok, err, length, get_elem?, All,
}
use go_tor.Prelude.Subset.{elem, Distinct}
use go_tor.Circuit.Core.{Circuit, new_circuit}
use go_tor.Circuit.Manager.{
  Manager, Heap, Called, created, create_circuit, search, next, ManagerError, no_available_ids,
  manager_closed,
}
use go_tor.Prelude.Refs.{ids}
use go_tor.Circuit.Manager.Create.{IsId, next-IsId, Searched, search_ends}

-- An entry of the map refers to a circuit that has its identifier.
abbrev pub Refers : Heap → ℕ × ℕ → Type 0
Refers heap e = (c : Circuit) × (get_elem? heap e.1 ≡ some c) × (c.id ≡ e.0)

pub record IsValid (heap : Heap) (m : Manager) : Type 0 where
  pub next_nonzero : 0 < m.next_id
  pub next_bound : m.next_id < 4294967296
  pub distinct : Distinct (ids m.circuits)
  pub in_range : All IsId (ids m.circuits)
  pub refers : All (Refers heap) m.circuits

get_elem-append :
    (heap : Heap) (c d : Circuit) (r : ℕ)
    → get_elem? heap r ≡ some d
    → get_elem? (heap ++ (c ∷ [])) r ≡ some d
get_elem-append [] c d r h = absurd (cc)
get_elem-append (x ∷ xs) c d zero h = h
get_elem-append (x ∷ xs) c d (suc r) h = get_elem-append xs c d r h

get_elem-append_last :
    (heap : Heap) (c : Circuit) → get_elem? (heap ++ (c ∷ [])) (length heap) ≡ some c
get_elem-append_last [] c = refl
get_elem-append_last (x ∷ xs) c = get_elem-append_last xs c

Refers-append :
    (heap : Heap) (c : Circuit) (m : List (ℕ × ℕ))
    → All (Refers heap) m
    → All (Refers (heap ++ (c ∷ []))) m
Refers-append heap c [] h = tt
Refers-append heap c ((id, r) ∷ m) ((d, g, e), rest) =
    ((d, get_elem-append heap c d r g, e), Refers-append heap c m rest)

-- What `CreateCircuit` does: a closed manager refuses; on an open one all identifiers may be in use, or
-- it makes a new circuit under an identifier that is not zero and was not in use.
abbrev pub Created : ℕ → Heap → Manager → Called (Result ManagerError ℕ) → Type 0
Created now heap m r =
    ((m.closed ≡ true) × (r ≡ record { heap = heap; manager = m; result = err manager_closed }))
    ⊎ ((m.closed ≡ false)
        × (4294967295 ≤ length (ids m.circuits))
        × (r ≡ record { heap = heap; manager = m; result = err no_available_ids }))
    ⊎ ((id : ℕ) × (m.closed ≡ false)
        × IsId id
        × (elem id (ids m.circuits) ≡ false)
        × (r ≡ record {
          heap = heap ++ (new_circuit now id ∷ []);
          manager = record m { circuits = (id, length heap) ∷ m.circuits; next_id = next id };
          result = ok (length heap);
        }))

length-ids : (m : List (ℕ × ℕ)) → length (ids m) ≡ length m
length-ids [] = refl
length-ids (e ∷ m) = ap suc (length-ids m)

create_open :
    (now : ℕ) (heap : Heap) (m : Manager)
    → m.closed ≡ false
    → (create_circuit now heap m
        ≡ created now heap m
            (search (suc (length (ids m.circuits))) m.next_id (ids m.circuits) m.next_id))
unfolding create_circuit
create_open now heap m h = rw (h, length-ids m.circuits) refl

pub create_refused :
    (now : ℕ) (heap : Heap) (m : Manager)
    → m.closed ≡ true
    → (create_circuit now heap m
        ≡ some (record { heap = heap; manager = m; result = err manager_closed }))
unfolding create_circuit
create_refused now heap m h = rw h refl

new_circuit_id : (now id : ℕ) → (new_circuit now id).id ≡ id
unfolding new_circuit
new_circuit_id now id = refl

create-IsValid :
    (now : ℕ) (heap : Heap) (m : Manager) (id : ℕ)
    → IsValid heap m
    → IsId id
    → elem id (ids m.circuits) ≡ false
    → IsValid
        (heap ++ (new_circuit now id ∷ []))
        (record m { circuits = (id, length heap) ∷ m.circuits; next_id = next id })
create-IsValid now heap m id v i u = record {
  next_nonzero = (next-IsId id i).0;
  next_bound = (next-IsId id i).1;
  distinct = (u, v.distinct);
  in_range = (i, v.in_range);
  refers = (
    (new_circuit now id, get_elem-append_last heap (new_circuit now id), new_circuit_id now id),
    Refers-append heap (new_circuit now id) m.circuits v.refers,
  );
}

-- The result of the creation, whatever the loop found.
created_exact :
    (now : ℕ) (heap : Heap) (m : Manager) (s : Option (Result ManagerError ℕ))
    → m.closed ≡ false
    → IsValid heap m
    → Searched (ids m.circuits) s
    → (r : Called (Result ManagerError ℕ)) × (created now heap m s ≡ some r)
      × Created now heap m r
      × IsValid r.heap r.manager
unfolding created
created_exact now heap m s h v (inl (id, e, i, u)) = (
  _,
  ap (created now heap m) e,
  inr (inr (id, h, i, u, refl)),
  create-IsValid now heap m id v i u,
)
created_exact now heap m s h v (inr (e, l)) =
    (_, ap (created now heap m) e, inr (inl (h, l, refl)), v)

-- `CreateCircuit` returns: it refuses when the manager is closed or every identifier is in use, and
-- otherwise adds a new circuit under an unused identifier that is not zero. The map stays in order:
-- identifiers distinct, not zero and below 2^32, each entry referring to the circuit it names.
pub create_circuit_exact :
    (now : ℕ) (heap : Heap) (m : Manager)
    → IsValid heap m
    → (r : Called (Result ManagerError ℕ)) × (create_circuit now heap m ≡ some r)
      × Created now heap m r
      × IsValid r.heap r.manager
create_circuit_exact now heap m v = elim (Bool-cases m.closed) [
  | inl h ↦ (_, create_refused now heap m h, inl (h, refl), v)
  | inr h ↦
      let r =
        created_exact now heap m _ h v
          (search_ends m.next_id (ids m.circuits) v.next_nonzero v.next_bound) in
      (r.0, create_open now heap m h ∙ r.1, r.2, r.3)
]
