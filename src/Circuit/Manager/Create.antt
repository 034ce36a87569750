-- ===== src/Circuit/Manager/Create.antt =====
-- The loop of `CreateCircuit` ends, and which identifier it finds.
use go_tor.Prelude.{
  ℕ, zero, suc, ◌+◌, ◌-◌, ◌≤◌, ◌<◌, ◌≡◌, ◌⊎◌, inl, inr, refl, sym, subst, ap, ◌∙◌, true, false,
  Bool-cases, List, [], ◌∷◌, Option, some, Result, ok, err, leb, ◌==◌, if◌then◌else◌, length, All,
  arith,
}
use go_tor.Prelude.Subset.{elem, Distinct, Subset, length-le_of_Subset}
use go_tor.Circuit.Manager.{ManagerError, no_available_ids, next, search}

-- The identifiers that may be handed out.
abbrev pub IsId : ℕ → Type 0
IsId id = (0 < id) × (id < 4294967296)

-- How many steps lead from the first identifier to another one.
abbrev offset : ℕ → ℕ → ℕ
offset start id = if leb start id then id - start else (id + 4294967295) - start

next_exact : (id : ℕ) → IsId id → next id ≡ (if id == 4294967295 then 1 else id + 1)
unfolding next
next_exact id h = ground arith

pub next-IsId : (id : ℕ) → IsId id → IsId (next id)
next-IsId id h = rw (next_exact id h) (ground arith)

offset-next :
    (start id : ℕ)
    → IsId start
    → IsId id
    → (next id == start) ≡ false
    → offset start (next id) ≡ suc (offset start id)
offset-next start id s i n = let e = next_exact id i in ground arith

offset_last :
    (start id : ℕ) → IsId start → IsId id → (next id == start) ≡ true → offset start id ≡ 4294967294
offset_last start id s i n = let e = next_exact id i in ground arith

-- The identifiers tried so far: as many as there are steps from the first one, each of them in use.
record Tried (start : ℕ) (used visited : List ℕ) (id : ℕ) : Type 0 where
  distinct : Distinct visited
  in_use : Subset visited used
  before : All (λ v. offset start v < offset start id) visited
  counted : length visited ≡ offset start id

not_before :
    (start id : ℕ) (vs : List ℕ)
    → All (λ v. offset start v < offset start id) vs
    → elem id vs ≡ false
unfolding elem
not_before start id [] h = refl
not_before start id (v ∷ vs) h = let a = h.0 in let b = not_before start id vs h.1 in ground arith

before_suc :
    (start n m : ℕ) (vs : List ℕ)
    → n < m
    → All (λ v. offset start v < n) vs
    → All (λ v. offset start v < m) vs
before_suc start n m [] l h = tt
before_suc start n m (v ∷ vs) l h = (let a = h.0 in omega arith, before_suc start n m vs l h.1)

in_use_cons :
    (id : ℕ) (vs used : List ℕ) → elem id used ≡ true → Subset vs used → Subset (id ∷ vs) used
unfolding elem
in_use_cons id vs used e s a h = elim (Bool-cases (a == id)) [
  | inl k ↦ subst (λ x. elem x used ≡ true) (ground arith) e
  | inr k ↦ s a (ground arith)
]

Tried-next :
    (start id : ℕ) (used visited : List ℕ)
    → IsId start
    → IsId id
    → elem id used ≡ true
    → (next id == start) ≡ false
    → Tried start used visited id
    → Tried start used (id ∷ visited) (next id)
Tried-next start id used visited s i u n t =
    let o = offset-next start id s i n in
    record {
      distinct = (not_before start id visited t.before, t.distinct);
      in_use = in_use_cons id visited used u t.in_use;
      before =
          subst (λ m. All (λ v. offset start v < m) (id ∷ visited)) (sym o)
            (omega arith, before_suc start (offset start id) _ visited (omega arith) t.before);
      counted = ap suc t.counted ∙ sym o;
    }

-- The result of the loop: an identifier that is not in use, or every identifier is in use.
abbrev pub Searched : List ℕ → Option (Result ManagerError ℕ) → Type 0
Searched used r =
    ((id : ℕ) × (r ≡ some (ok id)) × IsId id × (elem id used ≡ false))
    ⊎ (r ≡ some (err no_available_ids)) × (4294967295 ≤ length used)

search_found :
    (fuel start : ℕ) (used : List ℕ) (id : ℕ)
    → elem id used ≡ false
    → search (suc fuel) start used id ≡ some (ok id)
unfolding search
search_found fuel start used id u = rw u refl

search_around :
    (fuel start : ℕ) (used : List ℕ) (id : ℕ)
    → elem id used ≡ true
    → (next id == start) ≡ true
    → search (suc fuel) start used id ≡ some (err no_available_ids)
unfolding search
search_around fuel start used id u n = rw (u, n) refl

search_on :
    (fuel start : ℕ) (used : List ℕ) (id : ℕ)
    → elem id used ≡ true
    → (next id == start) ≡ false
    → search (suc fuel) start used id ≡ search fuel start used (next id)
unfolding search
search_on fuel start used id u n = rw (u, n) refl

search_from :
    (fuel start : ℕ) (used visited : List ℕ) (id : ℕ)
    → IsId start
    → IsId id
    → Tried start used visited id
    → length used < fuel + length visited
    → Searched used (search fuel start used id)
search_from zero start used visited id s i t l =
    absurd (let p = length-le_of_Subset visited used t.distinct t.in_use in omega arith)
search_from (suc fuel) start used visited id s i t l = elim (Bool-cases (elem id used)) [
  | inr u ↦ inl (id, search_found fuel start used id u, i, u)
  | inl u ↦ elim (Bool-cases (next id == start)) [
    | inl n ↦ inr (search_around fuel start used id u n, all_used start id used visited s i u n t)
    | inr n ↦ subst (Searched used) (sym (search_on fuel start used id u n)) (
        search_from fuel start used (id ∷ visited) (next id) s (next-IsId id i)
          (Tried-next start id used visited s i u n t) (omega arith))
  ]
]
  where
    all_used :
        (start id : ℕ) (used visited : List ℕ)
        → IsId start
        → IsId id
        → elem id used ≡ true
        → (next id == start) ≡ true
        → Tried start used visited id
        → 4294967295 ≤ length used
    all_used start id used visited s i u n t =
        let p =
          length-le_of_Subset (id ∷ visited) used (not_before start id visited t.before, t.distinct)
            (in_use_cons id visited used u t.in_use) in
        let c = t.counted in let o = offset_last start id s i n in omega arith

-- The loop ends after at most one round more than there are circuits: with an identifier that is not
-- zero and not in use, or, where all 2^32 - 1 identifiers are in use, with the error.
pub search_ends :
    (start : ℕ) (used : List ℕ)
    → 0 < start
    → start < 4294967296
    → Searched used (search (suc (length used)) start used start)
unfolding elem
search_ends start used a b =
    search_from (suc (length used)) start used [] start (a, b) (a, b)
      (record { distinct = tt; in_use = λ x h. absurd (cc); before = tt; counted = ground arith })
      (omega arith)
