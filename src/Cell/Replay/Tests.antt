-- ===== src/Cell/Replay/Tests.antt =====
-- The replay theorems at concrete cells, with the identity for the hash function.
use go_tor.Prelude.{
  ◌++◌, ◌≢◌, ℕ, ◌≤◌, ◌≡◌, refl, List, [], ◌∷◌, Option, none, some, length, arith, bytes_eq,
}
use go_tor.Prelude.Subset.{elem}
use go_tor.Cell.Replay.{
  ReplayError, empty_track, replay_backward, duplicate_digest, empty_cell, validate,
  validate_sequence, digest_of, new_replay_protection_with_window,
}
use go_tor.Cell.Replay.Table.{lookup}
use go_tor.Cell.Replay.History.{remembered}
use go_tor.Cell.Replay.Run.{run_auto, spec_run, run_auto_exact}
use go_tor.Cell.Replay.Recent.{AllFresh, replay_detected_iff_recent}
use go_tor.Cell.Replay.Sequence.{run_validate, sequence_accepted_once}
use go_tor.Cell.Replay.Size.{memory_bounded}

abbrev hash : List ℕ → List ℕ
hash c = c

-- A window of one: the replay of 7 is refused, and accepted after two others.
abbrev cells : List (List ℕ)
cells = (7 ∷ []) ∷ [] ∷ (8 ∷ []) ∷ (7 ∷ []) ∷ (9 ∷ []) ∷ (7 ∷ []) ∷ []

abbrev verdicts : List (Option ReplayError)
verdicts = none ∷ some empty_cell ∷ none ∷ some duplicate_digest ∷ none ∷ none ∷ []

spec_verdicts : spec_run hash 1 cells [] ≡ verdicts
unfolding spec_run remembered digest_of bytes_eq
spec_verdicts = refl

run_auto_exact_example :
    run_auto hash replay_backward cells (new_replay_protection_with_window 1)
    ≡ spec_run hash 1 cells []
run_auto_exact_example = run_auto_exact hash replay_backward 1 cells (omega arith)

-- Three accepted cells, with a window of one.
-- Three cells with a window of one, and the first of them again.
abbrev three_cells : List (List ℕ)
three_cells = (7 ∷ []) ∷ (8 ∷ []) ∷ (9 ∷ []) ∷ []

nonempty_cell : (b : ℕ) → b ∷ [] ≢ []
nonempty_cell b e = cc

three_cells-AllFresh : AllFresh hash three_cells []
unfolding digest_of remembered bytes_eq
three_cells-AllFresh = (nonempty_cell 7, refl, (nonempty_cell 8, refl, (nonempty_cell 9, refl, tt)))

replay_detected_iff_recent_example :
    run_auto hash replay_backward
      (three_cells ++ ((7 ∷ []) ∷ []))
      (new_replay_protection_with_window 1)
    ≡ none ∷ none ∷ none ∷ none ∷ []
replay_detected_iff_recent_example =
    replay_detected_iff_recent hash replay_backward 1 (7 ∷ []) [] ((8 ∷ []) ∷ (9 ∷ []) ∷ [])
      three_cells-AllFresh (omega arith)

first_accepted : (validate 32 5 (1 ∷ []) empty_track).1 ≡ none
unfolding validate validate_sequence lookup elem
first_accepted = refl

sequence_accepted_once_example :
    (e : ReplayError) × ((validate 32 5 (2 ∷ []) (
        run_validate 32 ((80, 3 ∷ []) ∷ (4, 4 ∷ []) ∷ []) (validate 32 5 (1 ∷ []) empty_track).0)).1
      ≡ some e)
sequence_accepted_once_example =
    sequence_accepted_once 32 5 (1 ∷ []) (2 ∷ []) empty_track ((80, 3 ∷ []) ∷ (4, 4 ∷ []) ∷ [])
      (omega arith) (omega arith) first_accepted

memory_bounded_example :
    (length (run_validate 1 ((0, 1 ∷ []) ∷ (1, 2 ∷ []) ∷ (2, 3 ∷ []) ∷ []) empty_track).window ≤ 1)
    × (length (run_validate 1 ((0, 1 ∷ []) ∷ (1, 2 ∷ []) ∷ (2, 3 ∷ []) ∷ []) empty_track).digests
        ≤ 1)
memory_bounded_example =
    memory_bounded 1 ((0, 1 ∷ []) ∷ (1, 2 ∷ []) ∷ (2, 3 ∷ []) ∷ []) (omega arith)
