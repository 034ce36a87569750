-- ===== src/Prelude/Subset.antt =====
-- A list without repetition whose members all stand in another list is no longer than it.
use go_tor.Prelude.Lists.{length}
use go_tor.Prelude.Tests.{◌==◌, if◌then◌else◌}
use Prim.Native.Nat.{ℕ, suc, ◌≤◌}
use mathlib.Core.Path.{◌≡◌}
use mathlib.Core.Bool.{Bool, true, false, ◌||◌}
use mathlib.Core.List.{List, [], ◌∷◌}
use native.Mathlib.Omega.{arith}

-- Membership as a test.
unfoldable pub elem : ℕ → List ℕ → Bool
elem a [] = false
elem a (x ∷ xs) = a == x || elem a xs

-- No member occurs twice.
abbrev pub Distinct : List ℕ → Type 0
Distinct [] = Unit
Distinct (x ∷ xs) = (elem x xs ≡ false) × Distinct xs

-- The list without the first occurrence of a number.
remove : ℕ → List ℕ → List ℕ
remove a [] = []
remove a (x ∷ xs) = let rest = remove a xs in if a == x then xs else x ∷ rest

length-remove : (a : ℕ) (xs : List ℕ) → elem a xs ≡ true → length xs ≡ suc (length (remove a xs))
unfolding elem remove
length-remove a [] h = cc
length-remove a (x ∷ xs) h = ground (arith, length-remove a xs)

elem-remove :
    (a b : ℕ) (xs : List ℕ) → (b == a) ≡ false → elem b xs ≡ true → elem b (remove a xs) ≡ true
unfolding elem remove
elem-remove a b [] n h = cc
elem-remove a b (x ∷ xs) n h = ground (arith, elem-remove a b xs n)

elem_ne : (a b : ℕ) (xs : List ℕ) → elem a xs ≡ false → elem b xs ≡ true → (b == a) ≡ false
unfolding elem
elem_ne a b [] h k = cc
elem_ne a b (x ∷ xs) h k = ground (arith, elem_ne a b xs)

-- Every member of the first list is a member of the second.
abbrev pub Subset : List ℕ → List ℕ → Type 0
Subset xs ys = (a : ℕ) → elem a xs ≡ true → elem a ys ≡ true

elem_head : (x : ℕ) (xs : List ℕ) → elem x (x ∷ xs) ≡ true
unfolding elem
elem_head x xs = ground arith

elem_tail : (a x : ℕ) (xs : List ℕ) → elem a xs ≡ true → elem a (x ∷ xs) ≡ true
unfolding elem
elem_tail a x xs h = ground arith

pub length-le_of_Subset : (xs ys : List ℕ) → Distinct xs → Subset xs ys → length xs ≤ length ys
length-le_of_Subset [] ys d s = omega arith
length-le_of_Subset (x ∷ xs) ys d s = omega (
  arith,
  length-remove x ys (s x (elem_head x xs)),
  length-le_of_Subset xs (remove x ys) d.1
      (λ a h. elem-remove x a ys (elem_ne x a xs d.0 h) (s a (elem_tail a x xs h))),
)
