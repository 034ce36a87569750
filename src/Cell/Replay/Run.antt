-- ===== src/Cell/Replay/Run.antt =====
-- Runs of the automatic mode, from a new `ReplayProtection`.
use go_tor.Prelude.{
  ℕ, ◌+◌, ◌*◌, ◌≤◌, ◌<◌, ◌^◌, ◌≡◌, refl, ◌∙◌, ap₂, List, [], ◌∷◌, Option, some, length, arith,
}
use go_tor.Cell.Replay.{
  Track, validate_auto, ReplayError, empty_track, ReplayDirection, replay_forward, replay_backward,
  ReplayProtection, empty_cell, digest_of, validate_and_track_auto, in_direction,
  new_replay_protection_with_window,
}
use go_tor.Cell.Replay.Auto.{Simulates, accept, validate_auto-Simulates}
use go_tor.Cell.Replay.Table.{Digest}

-- `ValidateAndTrackAuto` on each cell of a list in turn, with the verdicts.
unfoldable pub run_auto :
    (List ℕ → List ℕ)
    → ReplayDirection
    → List (List ℕ)
    → ReplayProtection
    → List (Option ReplayError)
run_auto sha256 direction [] r = []
run_auto sha256 direction (c ∷ cs) r =
    let step = validate_and_track_auto sha256 direction c r in
    step.1 ∷ run_auto sha256 direction cs step.0

-- The specification of a run: an empty cell is refused, any other is refused exactly if its digest is
-- one of the last `size + 1` accepted ones.
unfoldable pub spec_run :
    (List ℕ → List ℕ) → ℕ → List (List ℕ) → List Digest → List (Option ReplayError)
unfolding accept
spec_run sha256 size [] h = []
spec_run sha256 size ([] ∷ cs) h = some empty_cell ∷ spec_run sha256 size cs h
spec_run sha256 size ((b ∷ bs) ∷ cs) h =
    let next = accept size (digest_of sha256 (b ∷ bs)) h in next.1 ∷ spec_run sha256 size cs next.0

abbrev pub track_of : ReplayDirection → ReplayProtection → Track
track_of replay_forward r = r.forward
track_of replay_backward r = r.backward

length-accept :
    (size : ℕ) (d : Digest) (h : List Digest) → length (accept size d h).0 ≤ length h + 1
unfolding accept
length-accept size d h = ground arith

-- A call in a direction is a step of that direction's track.
auto_step :
    (sha256 : List ℕ → List ℕ) (direction : ReplayDirection) (b : ℕ) (bs : List ℕ)
    (r : ReplayProtection)
    → let step = validate_and_track_auto sha256 direction (b ∷ bs) r in
      let step' = validate_auto r.window_size (digest_of sha256 (b ∷ bs)) (track_of direction r) in
      (track_of direction step.0 ≡ step'.0)
      × (step.1 ≡ step'.1)
      × (step.0.window_size ≡ r.window_size)
unfolding validate_and_track_auto in_direction
auto_step sha256 replay_forward b bs r = (refl, refl, refl)
auto_step sha256 replay_backward b bs r = (refl, refl, refl)

-- An empty cell changes nothing.
empty_step :
    (sha256 : List ℕ → List ℕ) (direction : ReplayDirection) (r : ReplayProtection)
    → ((validate_and_track_auto sha256 direction [] r).0 ≡ r)
      × ((validate_and_track_auto sha256 direction [] r).1 ≡ some empty_cell)
unfolding validate_and_track_auto
empty_step sha256 direction r = (refl, refl)

start-Simulates :
    (size : ℕ) (direction : ReplayDirection)
    → Simulates size
        (track_of direction
          (record { forward = empty_track; backward = empty_track; window_size = size }))
        []
start-Simulates size replay_forward = record {
  seq_exact = refl;
  digests_exact = refl;
  window_exact = refl;
}
start-Simulates size replay_backward = record {
  seq_exact = refl;
  digests_exact = refl;
  window_exact = refl;
}

run_auto-Simulates :
    (sha256 : List ℕ → List ℕ) (direction : ReplayDirection) (cells : List (List ℕ))
    (r : ReplayProtection) (h : List Digest)
    → Simulates r.window_size (track_of direction r) h
    → length h + length cells + r.window_size * 2 < 2 ^ 64
    → run_auto sha256 direction cells r ≡ spec_run sha256 r.window_size cells h
unfolding run_auto spec_run
run_auto-Simulates sha256 direction [] r h s bound = refl
run_auto-Simulates sha256 direction ([] ∷ cs) r h s bound =
    let (same, v) = empty_step sha256 direction r in
    ap₂ ◌∷◌ v (rw same (run_auto-Simulates sha256 direction cs r h s (omega arith)))
run_auto-Simulates sha256 direction ((b ∷ bs) ∷ cs) r h s bound =
    let d = digest_of sha256 (b ∷ bs) in
    let r' = (validate_and_track_auto sha256 direction (b ∷ bs) r).0 in
    let (t, v, w) = auto_step sha256 direction b bs r in
    let (s', v') =
      validate_auto-Simulates r.window_size d (track_of direction r) h s (omega arith) in
    ap₂ ◌∷◌ (v ∙ v') (
      rw w at (
        run_auto-Simulates sha256 direction cs r' (accept r.window_size d h).0 (rw (w, t) s')
          (omega (arith, w, length-accept r.window_size d h))))

-- From a new `ReplayProtection` the verdicts of any run of automatic calls in one direction are those
-- of the specification, as long as the sequence numbers stay below 2 ^ 64.
pub run_auto_exact :
    (sha256 : List ℕ → List ℕ) (direction : ReplayDirection) (size : ℕ) (cells : List (List ℕ))
    → length cells + size * 2 < 2 ^ 64
    → run_auto sha256 direction cells (new_replay_protection_with_window size)
      ≡ spec_run sha256 size cells []
unfolding new_replay_protection_with_window
run_auto_exact sha256 direction size cells bound =
    run_auto-Simulates sha256 direction cells
      (record { forward = empty_track; backward = empty_track; window_size = size }) []
      (start-Simulates size direction) (omega arith)
