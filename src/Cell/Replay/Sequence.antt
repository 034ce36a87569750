-- ===== src/Cell/Replay/Sequence.antt =====
-- Numbered cells, `ValidateAndTrack`: no sequence number is accepted twice.
use go_tor.Prelude.{
  ℕ, ◌+◌, ◌-◌, ◌<◌, ◌^◌, ◌≡◌, refl, true, List, [], ◌∷◌, ◌⊎◌, inl, inr, none, some, Result, ok, err,
  leb, if◌then◌else◌, ◌==◌, ◌&&◌, ◌||◌, ap, ◌∙◌, arith, Bool-cases, Option-cases, All,
}
use go_tor.Prelude.Subset.{elem}
use go_tor.Cell.Replay.{
  Track, validate_sequence, validate, ReplayError, cleanup_window, count_attempt, record_cell, u64,
  duplicate_digest,
}
use go_tor.Cell.Replay.History.{low_of}
use go_tor.Cell.Replay.Table.{Digest, lookup, set_insert, keep_set, elem-set_insert, elem-keep_set}

-- The track after an accepted call.
unfoldable pub accepted_track : ℕ → ℕ → Digest → Track → Track
accepted_track size n d t =
    let r = record_cell n d t in
    let s = if leb t.seq n then record r { seq = u64 (n + 1) } else r in cleanup_window size s

validate-none :
    (size n : ℕ) (d : Digest) (t : Track)
    → lookup d t.digests ≡ none
    → (v : Result ReplayError (Unit {0})) → validate_sequence size n t.seq t.window ≡ v
    → validate size n d t
      ≡ elim v [ err e ↦ (count_attempt t, some e) | ok _ ↦ (accepted_track size n d t, none) ]
unfolding validate accepted_track
validate-none size n d t h (err e) k = ground arith
validate-none size n d t h (ok u) k = ground arith

validate_seen :
    (size n : ℕ) (d : Digest) (t : Track) (v : ℕ)
    → lookup d t.digests ≡ some v
    → validate size n d t ≡ (count_attempt t, some duplicate_digest)
unfolding validate
validate_seen size n d t v h = ground arith

-- A call returns an error and only counts the attempt, or it returns none and has passed the
-- sequence test.
pub validate_cases :
    (size n : ℕ) (d : Digest) (t : Track)
    → ((e : ReplayError) × (validate size n d t ≡ (count_attempt t, some e)))
      ⊎ ((lookup d t.digests ≡ none)
          × (validate_sequence size n t.seq t.window ≡ ok tt)
          × (validate size n d t ≡ (accepted_track size n d t, none)))
validate_cases size n d t = elim (Option-cases (lookup d t.digests)) [
  | inr (v, old) ↦ inl (duplicate_digest, validate_seen size n d t v old)
  | inl new ↦ by_sequence new (validate_sequence size n t.seq t.window) refl
]
  where
    by_sequence :
        lookup d t.digests ≡ none
        → (v : Result ReplayError (Unit {0})) → validate_sequence size n t.seq t.window ≡ v
        → ((e : ReplayError) × (validate size n d t ≡ (count_attempt t, some e)))
          ⊎ ((lookup d t.digests ≡ none)
              × (validate_sequence size n t.seq t.window ≡ ok tt)
              × (validate size n d t ≡ (accepted_track size n d t, none)))
    by_sequence new (err e) h = inl (e, validate-none size n d t new (err e) h)
    by_sequence new (ok tt) h = inr (new, h, validate-none size n d t new (ok tt) h)

-- The sequence number and the window after an accepted call.
unfoldable pub next_seq : ℕ → ℕ → ℕ
next_seq n seq = if leb seq n then n + 1 else seq

pub accepted_seq :
    (size n : ℕ) (d : Digest) (t : Track)
    → n < 2 ^ 64 - 1
    → (accepted_track size n d t).seq ≡ next_seq n t.seq
unfolding accepted_track cleanup_window record_cell next_seq
accepted_seq size n d t b = ground arith

pub accepted_window :
    (size n : ℕ) (d : Digest) (t : Track)
    → (accepted_track size n d t).window
      ≡ keep_set (low_of size (accepted_track size n d t).seq) (set_insert n t.window)
unfolding accepted_track cleanup_window record_cell
accepted_window size n d t = elim (Bool-cases (leb t.seq n)) [ inl h ↦ rw h | inr h ↦ rw h ]

-- A number that can not be accepted any more: it is in the window, or below it.
record IsSpent (size s : ℕ) (t : Track) : Type 0 where
  passed : s < t.seq
  seen : (elem s t.window ≡ true) ⊎ (s + size < t.seq)

spent_refused :
    (size s : ℕ) (d : Digest) (t : Track)
    → IsSpent size s t
    → (e : ReplayError) × (validate size s d t ≡ (count_attempt t, some e))
unfolding validate_sequence
spent_refused size s d t h = elim (validate_cases size s d t) [
  | inl r ↦ r
  | inr (new, passed, _) ↦ absurd (ground arith)
]

pub elem_accepted :
    (size s n : ℕ) (d : Digest) (t : Track)
    → elem s (accepted_track size n d t).window
      ≡ (leb (low_of size (accepted_track size n d t).seq) s && (s == n || elem s t.window))
elem_accepted size s n d t = rw accepted_window (
    elem-keep_set s (low_of size (accepted_track size n d t).seq) (set_insert n t.window)
    ∙ ap (λ b. leb (low_of size (accepted_track size n d t).seq) s && b)
        (elem-set_insert s n t.window))

accepted-IsSpent :
    (size n : ℕ) (d : Digest) (t : Track)
    → n < 2 ^ 64 - 1
    → IsSpent size n (accepted_track size n d t)
unfolding next_seq
accepted-IsSpent size n d t b =
    ground (arith, accepted_seq size n d t b, elem_accepted size n n d t)

accepted_keeps :
    (size s n : ℕ) (d : Digest) (t : Track)
    → n < 2 ^ 64 - 1
    → IsSpent size s t
    → IsSpent size s (accepted_track size n d t)
unfolding next_seq
accepted_keeps size s n d t b h =
    ground (arith, accepted_seq size n d t b, elem_accepted size s n d t)

attempt_keeps : (size s : ℕ) (t : Track) → IsSpent size s t → IsSpent size s (count_attempt t)
unfolding count_attempt
attempt_keeps size s t h = ground arith

validate_keeps :
    (size s n : ℕ) (d : Digest) (t : Track)
    → n < 2 ^ 64 - 1
    → IsSpent size s t
    → IsSpent size s (validate size n d t).0
validate_keeps size s n d t b h = elim (validate_cases size n d t) [
  | inl (e, r) ↦ rw r (attempt_keeps size s t h)
  | inr (new, v, r) ↦ rw r (accepted_keeps size s n d t b h)
]

-- The track after numbered cells, each with its digest.
unfoldable pub run_validate : ℕ → List (ℕ × Digest) → Track → Track
run_validate size [] t = t
run_validate size ((n, d) ∷ cs) t = run_validate size cs (validate size n d t).0

run_validate_keeps :
    (size s : ℕ) (cs : List (ℕ × Digest)) (t : Track)
    → All (λ c. c.0 < 2 ^ 64 - 1) cs
    → IsSpent size s t
    → IsSpent size s (run_validate size cs t)
unfolding run_validate
run_validate_keeps size s [] t b h = h
run_validate_keeps size s ((n, d) ∷ cs) t b h =
    run_validate_keeps size s cs (validate size n d t).0 b.1 (validate_keeps size s n d t b.0 h)

-- Once a cell is accepted under a sequence number below 2^64 - 1, a later cell of that direction under
-- the same number is refused with an error, whatever cells were offered in between, accepted or not,
-- provided their numbers are below 2^64 - 1 as well.
pub sequence_accepted_once :
    (size s : ℕ) (d d' : Digest) (t : Track) (between : List (ℕ × Digest))
    → s < 2 ^ 64 - 1
    → All (λ c. c.0 < 2 ^ 64 - 1) between
    → (validate size s d t).1 ≡ none
    → (e : ReplayError) × ((validate size s d'
          (run_validate size between (validate size s d t).0)).1
        ≡ some e)
sequence_accepted_once size s d d' t between b bs accepted = elim (validate_cases size s d t) [
  | inl (e, r) ↦ absurd (cc)
  | inr (new, v, r) ↦
      let spent : IsSpent size s (validate size s d t).0 = rw r (accepted-IsSpent size s d t b) in
      let (e, again) =
        spent_refused size s d' _
          (run_validate_keeps size s between (validate size s d t).0 bs spent) in
      (e, ap (λ p. p.1) again)
]
