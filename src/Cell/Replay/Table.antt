-- ===== src/Cell/Replay/Table.antt =====
-- The two kinds of map of replay.go: sets of sequence numbers, and numbers by digest.
use go_tor.Prelude.{
  ℕ, ◌≡◌, refl, false, List, [], ◌∷◌, Option, none, some, ltb, leb, if◌then◌else◌, ◌==◌, ◌&&◌, ◌||◌,
  arith, bytes_eq,
}
use go_tor.Prelude.Subset.{elem, Distinct}

-- A [16]byte.
abbrev pub Digest : Type 0
Digest = List ℕ

unfoldable pub lookup : Digest → List (Digest × ℕ) → Option ℕ
lookup d [] = none
lookup d ((e, v) ∷ m) = if bytes_eq d e then some v else lookup d m

unfoldable pub delete : Digest → List (Digest × ℕ) → List (Digest × ℕ)
delete d [] = []
delete d ((e, v) ∷ m) = let rest = delete d m in if bytes_eq d e then rest else (e, v) ∷ rest

-- `m[d] = v`
unfoldable pub insert : Digest → ℕ → List (Digest × ℕ) → List (Digest × ℕ)
unfolding delete
insert d v m = (d, v) ∷ delete d m

-- The loop that deletes the entries below a number.
unfoldable pub keep : ℕ → List (Digest × ℕ) → List (Digest × ℕ)
keep low [] = []
keep low ((d, v) ∷ m) = let rest = keep low m in if ltb v low then rest else (d, v) ∷ rest

-- `window[s] = struct{}{}`
unfoldable pub set_insert : ℕ → List ℕ → List ℕ
unfolding elem
set_insert s w = if elem s w then w else s ∷ w

unfoldable pub keep_set : ℕ → List ℕ → List ℕ
keep_set low [] = []
keep_set low (s ∷ w) = let rest = keep_set low w in if ltb s low then rest else s ∷ rest

pub delete_absent : (d : Digest) (m : List (Digest × ℕ)) → lookup d m ≡ none → delete d m ≡ m
unfolding lookup delete
delete_absent d [] h = refl
delete_absent d ((e, v) ∷ m) h = ground (arith, delete_absent d m)

pub elem-set_insert : (a s : ℕ) (w : List ℕ) → elem a (set_insert s w) ≡ (a == s || elem a w)
unfolding set_insert
elem-set_insert a s w = ground arith

pub elem-keep_set : (a low : ℕ) (w : List ℕ) → elem a (keep_set low w) ≡ (leb low a && elem a w)
unfolding elem keep_set
elem-keep_set a low [] = ground arith
elem-keep_set a low (s ∷ w) = ground (arith, elem-keep_set a low w)

pub keep_set-Distinct : (low : ℕ) (w : List ℕ) → Distinct w → Distinct (keep_set low w)
unfolding keep_set
keep_set-Distinct low [] d = tt
keep_set-Distinct low (s ∷ w) d = ground (arith, keep_set-Distinct low w d.1, elem-keep_set s low w)

pub set_insert-Distinct : (s : ℕ) (w : List ℕ) → Distinct w → Distinct (set_insert s w)
unfolding set_insert
set_insert-Distinct s w d = ground arith

pub keep_head :
    (low : ℕ) (d : Digest) (v : ℕ) (m : List (Digest × ℕ))
    → ltb v low ≡ false
    → keep low ((d, v) ∷ m) ≡ (d, v) ∷ keep low m
unfolding keep
keep_head low d v m h = rw h

pub keep_set_head :
    (low s : ℕ) (w : List ℕ) → ltb s low ≡ false → keep_set low (s ∷ w) ≡ s ∷ keep_set low w
unfolding keep_set
keep_set_head low s w h = rw h

pub set_insert_absent : (s : ℕ) (w : List ℕ) → elem s w ≡ false → set_insert s w ≡ s ∷ w
unfolding set_insert
set_insert_absent s w h = rw h
