-- ===== src/Cell/Replay/Size.antt =====
-- The memory that replay protection takes: both maps stay within the window size.
use go_tor.Prelude.{
  ℕ, zero, suc, ◌+◌, ◌-◌, ◌≤◌, ◌<◌, ◌^◌, ◌≡◌, refl, ap, true, false, List, [], ◌∷◌, inl, inr, none,
  ok, ltb, leb, arith, Bool-cases, All, length,
}
use go_tor.Prelude.Subset.{elem, Distinct, Subset, length-le_of_Subset}
use go_tor.Cell.Replay.{
  Track, validate_sequence, validate, empty_track, count_attempt, record_cell, cleanup_window,
}
use go_tor.Cell.Replay.History.{low_of}
use go_tor.Cell.Replay.Sequence.{
  accepted_track, accepted_seq, accepted_window, elem_accepted, next_seq, validate_cases,
  run_validate,
}
use go_tor.Cell.Replay.Table.{
  Digest, lookup, delete, keep, keep_set, set_insert, set_insert-Distinct, keep_set-Distinct,
  delete_absent, set_insert_absent,
}

abbrev values : List (Digest × ℕ) → List ℕ
values [] = []
values ((d, v) ∷ m) = v ∷ values m

-- The window holds each number once, all from the last `size` ones, and the digests are recorded
-- under these numbers.
record IsTight (size : ℕ) (t : Track) : Type 0 where
  distinct : Distinct t.window
  below : (a : ℕ) → elem a t.window ≡ true → a < t.seq
  above : (a : ℕ) → elem a t.window ≡ true → low_of size t.seq ≤ a
  aligned : values t.digests ≡ t.window

-- The numbers from `low` up to `low + k`.
span : ℕ → ℕ → List ℕ
span low zero = []
span low (suc k) = (low + k) ∷ span low k

length-span : (low k : ℕ) → length (span low k) ≡ k
unfolding span
length-span low zero = refl
length-span low (suc k) = ap suc (length-span low k)

elem-span : (a low k : ℕ) → low ≤ a → a < low + k → elem a (span low k) ≡ true
unfolding span elem
elem-span a low zero h l = absurd (omega arith)
elem-span a low (suc k) h l = ground (arith, elem-span a low k)

-- A tight window has at most `size` numbers, and so has the map of digests.
tight_length :
    (size : ℕ) (t : Track)
    → IsTight size t
    → (length t.window ≤ size) × (length (values t.digests) ≤ size)
tight_length size t h =
    let low = low_of size t.seq in
    let inside : Subset t.window (span low (t.seq - low)) =
      λ a e. elem-span a low (t.seq - low) (h.above a e) (ground (arith, h.below a e)) in
    let short = length-le_of_Subset t.window (span low (t.seq - low)) h.distinct inside in
    let fits : length t.window ≤ size = ground (arith, short, length-span low (t.seq - low)) in
    (fits, rw h.aligned fits)

values-keep : (low : ℕ) (m : List (Digest × ℕ)) → values (keep low m) ≡ keep_set low (values m)
unfolding keep keep_set
values-keep low [] = refl
values-keep low ((d, v) ∷ m) = elim (Bool-cases (ltb v low)) [
  | inl h ↦ rw h (values-keep low m)
  | inr h ↦ rw h (ap (λ t. v ∷ t) (values-keep low m))
]

accepted_digests :
    (size n : ℕ) (d : Digest) (t : Track)
    → (accepted_track size n d t).digests
      ≡ keep (low_of size (accepted_track size n d t).seq) ((d, n) ∷ delete d t.digests)
unfolding accepted_track cleanup_window record_cell go_tor.Cell.Replay.Table.insert
accepted_digests size n d t = elim (Bool-cases (leb t.seq n)) [ inl h ↦ rw h | inr h ↦ rw h ]

passed_unseen :
    (size n seq : ℕ) (w : List ℕ) → validate_sequence size n seq w ≡ ok tt → elem n w ≡ false
unfolding validate_sequence
passed_unseen size n seq w h = ground arith

accepted-IsTight :
    (size n : ℕ) (d : Digest) (t : Track)
    → n < 2 ^ 64 - 1
    → lookup d t.digests ≡ none
    → validate_sequence size n t.seq t.window ≡ ok tt
    → IsTight size t
    → IsTight size (accepted_track size n d t)
unfolding next_seq
accepted-IsTight size n d t b new v h = record {
  distinct = rw accepted_window (keep_set-Distinct _ _ (set_insert-Distinct n t.window h.distinct));
  below = λ a e. ground (arith, accepted_seq size n d t b, elem_accepted size a n d t, h.below a);
  above = λ a e. ground (arith, elem_accepted size a n d t);
  aligned = rw (
    accepted_digests size n d t,
    delete_absent d t.digests new,
    values-keep,
    h.aligned,
    accepted_window size n d t,
    set_insert_absent n t.window (passed_unseen size n t.seq t.window v),
  );
}

attempt-IsTight : (size : ℕ) (t : Track) → IsTight size t → IsTight size (count_attempt t)
unfolding count_attempt
attempt-IsTight size t h = record {
  distinct = h.distinct;
  below = h.below;
  above = h.above;
  aligned = h.aligned;
}

validate-IsTight :
    (size n : ℕ) (d : Digest) (t : Track)
    → n < 2 ^ 64 - 1
    → IsTight size t
    → IsTight size (validate size n d t).0
validate-IsTight size n d t b h = elim (validate_cases size n d t) [
  | inl (e, r) ↦ rw r (attempt-IsTight size t h)
  | inr (new, v, r) ↦ rw r (accepted-IsTight size n d t b new v h)
]

run-IsTight :
    (size : ℕ) (cs : List (ℕ × Digest)) (t : Track)
    → All (λ c. c.0 < 2 ^ 64 - 1) cs
    → IsTight size t
    → IsTight size (run_validate size cs t)
unfolding run_validate
run-IsTight size [] t b h = h
run-IsTight size ((n, d) ∷ cs) t b h =
    run-IsTight size cs (validate size n d t).0 b.1 (validate-IsTight size n d t b.0 h)

empty-IsTight : (size : ℕ) → IsTight size empty_track
unfolding elem
empty-IsTight size = record { distinct = tt; below = λ a e. cc; above = λ a e. cc; aligned = refl }

length-values : (m : List (Digest × ℕ)) → length (values m) ≡ length m
length-values [] = refl
length-values ((d, v) ∷ m) = ap suc (length-values m)

-- Whatever cells with numbers below 2^64 - 1 are offered to a fresh direction, its window and its map
-- of digests hold at most as many entries as the window size.
pub memory_bounded :
    (size : ℕ) (cs : List (ℕ × Digest))
    → All (λ c. c.0 < 2 ^ 64 - 1) cs
    → let t = run_validate size cs empty_track in
      (length t.window ≤ size) × (length t.digests ≤ size)
memory_bounded size cs b =
    let t = run_validate size cs empty_track in
    let (w, m) = tight_length size t (run-IsTight size cs empty_track b (empty-IsTight size)) in
    (w, rw length-values at m)
