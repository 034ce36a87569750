-- ===== src/Prelude/Refs.antt =====
-- Maps from identifiers to references into a heap: association lists without repeated keys. And what
-- a write to the heap leaves.
use go_tor.Prelude.Lists.{get_elem?, set, All}
use go_tor.Prelude.Tests.{◌==◌, if◌then◌else◌, Bool-cases}
use go_tor.Prelude.Subset.{elem, Distinct}
use Prim.Native.Nat.{ℕ, zero, suc}
use mathlib.Core.Path.{◌≡◌, refl, sym, subst, ap₂}
use mathlib.Core.Logic.{inl, inr}
use mathlib.Core.Bool.{true, false}
use mathlib.Core.Option.{Option, none, some}
use mathlib.Core.List.{List, [], ◌∷◌, map}
use native.Mathlib.Omega.{arith}

unfoldable pub find : ℕ → List (ℕ × ℕ) → Option ℕ
find id [] = none
find id ((k, r) ∷ m) = let rest = find id m in if k == id then some r else rest

unfoldable pub delete : ℕ → List (ℕ × ℕ) → List (ℕ × ℕ)
delete id [] = []
delete id ((k, r) ∷ m) = let rest = delete id m in if k == id then rest else (k, r) ∷ rest

abbrev pub ids : List (ℕ × ℕ) → List ℕ
ids m = map (λ e. e.0) m

pub get_elem-set_same :
    {A : Type 0} (heap : List A) (r : ℕ) (c d : A)
    → get_elem? heap r ≡ some c
    → get_elem? (set heap r d) r ≡ some d
get_elem-set_same [] r c d h = absurd (cc)
get_elem-set_same (x ∷ xs) zero c d h = refl
get_elem-set_same (x ∷ xs) (suc r) c d h = get_elem-set_same xs r c d h

pub get_elem-set_other :
    {A : Type 0} (heap : List A) (r q : ℕ) (d : A)
    → (q == r) ≡ false
    → get_elem? (set heap r d) q ≡ get_elem? heap q
get_elem-set_other [] r q d h = refl
get_elem-set_other (x ∷ xs) zero zero d h = absurd (ground arith)
get_elem-set_other (x ∷ xs) zero (suc q) d h = refl
get_elem-set_other (x ∷ xs) (suc r) zero d h = refl
get_elem-set_other (x ∷ xs) (suc r) (suc q) d h = get_elem-set_other xs r q d (ground arith)

pub delete_drops :
    (id k r : ℕ) (m : List (ℕ × ℕ)) → (k == id) ≡ true → delete id ((k, r) ∷ m) ≡ delete id m
unfolding delete
delete_drops id k r m h = rw h refl

pub delete_keeps :
    (id k r : ℕ) (m : List (ℕ × ℕ))
    → (k == id) ≡ false
    → delete id ((k, r) ∷ m) ≡ (k, r) ∷ delete id m
unfolding delete
delete_keeps id k r m h = rw h refl

-- A predicate of the entries, or of their identifiers, survives a deletion.
pub All-delete : (P : ℕ × ℕ → Type 0) (id : ℕ) (m : List (ℕ × ℕ)) → All P m → All P (delete id m)
unfolding delete
All-delete P id [] h = tt
All-delete P id ((k, r) ∷ m) h = elim (Bool-cases (k == id)) [
  | inl e ↦ subst (All P) (sym (delete_drops id k r m e)) (All-delete P id m h.1)
  | inr e ↦ subst (All P) (sym (delete_keeps id k r m e)) (h.0, All-delete P id m h.1)
]

pub All-ids-delete :
    (P : ℕ → Type 0) (id : ℕ) (m : List (ℕ × ℕ)) → All P (ids m) → All P (ids (delete id m))
unfolding delete
All-ids-delete P id [] h = tt
All-ids-delete P id ((k, r) ∷ m) h = elim (Bool-cases (k == id)) [
  | inl e ↦ subst (λ t. All P (ids t)) (sym (delete_drops id k r m e)) (All-ids-delete P id m h.1)
  | inr e ↦
      subst (λ t. All P (ids t)) (sym (delete_keeps id k r m e)) (h.0, All-ids-delete P id m h.1)
]

pub elem-ids-delete :
    (a id : ℕ) (m : List (ℕ × ℕ)) → elem a (ids m) ≡ false → elem a (ids (delete id m)) ≡ false
unfolding elem delete
elem-ids-delete a id [] h = refl
elem-ids-delete a id ((k, r) ∷ m) h = elim (Bool-cases (k == id)) [
  | inl e ↦
      subst (λ t. elem a (ids t) ≡ false) (sym (delete_drops id k r m e))
        (elem-ids-delete a id m (ground arith))
  | inr e ↦
      let ih = elem-ids-delete a id m (ground arith) in
      subst (λ t. elem a (ids t) ≡ false) (sym (delete_keeps id k r m e)) (ground arith)
]

pub Distinct-delete : (id : ℕ) (m : List (ℕ × ℕ)) → Distinct (ids m) → Distinct (ids (delete id m))
unfolding delete
Distinct-delete id [] h = tt
Distinct-delete id ((k, r) ∷ m) h = elim (Bool-cases (k == id)) [
  | inl e ↦ subst (λ t. Distinct (ids t)) (sym (delete_drops id k r m e)) (Distinct-delete id m h.1)
  | inr e ↦
      subst (λ t. Distinct (ids t)) (sym (delete_keeps id k r m e))
        (elem-ids-delete k id m h.0, Distinct-delete id m h.1)
]

pub find-delete : (id : ℕ) (m : List (ℕ × ℕ)) → find id (delete id m) ≡ none
unfolding find delete
find-delete id [] = refl
find-delete id ((k, r) ∷ m) =
    let ih = find-delete id m in
    elim (Bool-cases (k == id)) [
      | inl e ↦ subst (λ t. find id t ≡ none) (sym (delete_drops id k r m e)) ih
      | inr e ↦ subst (λ t. find id t ≡ none) (sym (delete_keeps id k r m e)) (rw e ih)
    ]

pub find-All :
    (P : ℕ × ℕ → Type 0) (id r : ℕ) (m : List (ℕ × ℕ)) → All P m → find id m ≡ some r → P (id, r)
unfolding find
find-All P id r [] h e = absurd (cc)
find-All P id r ((k, q) ∷ m) h e = elim (Bool-cases (k == id)) [
  | inl n ↦
      let a : k ≡ id = ground arith in
      let b : q ≡ r = ground arith in subst P (ap₂ (λ x y. (x, y)) a b) h.0
  | inr n ↦ find-All P id r m h.1 (ground arith)
]
