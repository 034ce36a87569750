-- ===== src/Cell/Replay.antt =====
-- pkg/cell/replay.go: replay protection of a circuit, in its two directions.
-- The source keeps two copies of the same five fields and of the same code, one for each direction;
-- here the fields of a direction are a record, `Track`, and the code is a function on it. A Go map
-- is an association list without repeated keys. The calls run under the mutex, one after another.
pub mod Table
pub mod Sequence
pub mod History
pub mod Auto
pub mod Run
pub mod Recent
pub mod Size
mod Tests
use go_tor.Prelude.{
  ℕ, ◌+◌, ◌-◌, ◌*◌, ◌%◌, ◌^◌, Bool, true, false, List, [], ◌∷◌, ◌&&◌, Option, none, some, Result,
  ok, err, ltb, leb, if◌then◌else◌, refuse_if, ◌>>=◌, ◌>>◌, length, take,
}
use go_tor.Prelude.Subset.{elem}
use go_tor.Cell.Replay.Table.{Digest, lookup, insert, keep, set_insert, keep_set}

-- The fields of one direction: the next expected sequence number, the seen numbers in the window,
-- the digests with their numbers, and the two statistics (all uint64).
pub record Track : Type 0 where
  pub seq : ℕ
  pub window : List ℕ
  pub digests : List (Digest × ℕ)
  pub replay_attempts : ℕ
  pub out_of_order : ℕ

pub record ReplayProtection : Type 0 where
  pub forward : Track
  pub backward : Track
  pub window_size : ℕ

pub data ReplayDirection : Type 0 where
  replay_forward replay_backward : ReplayDirection

abbrev pub default_window_size : ℕ
default_window_size = 32

abbrev pub u64 : ℕ → ℕ
u64 n = n % 2 ^ 64

abbrev pub empty_track : Track
empty_track = record { seq = 0; window = []; digests = []; replay_attempts = 0; out_of_order = 0 }

unfoldable pub new_replay_protection_with_window : ℕ → ReplayProtection
new_replay_protection_with_window window_size = record {
  forward = empty_track;
  backward = empty_track;
  window_size = window_size;
}

unfoldable pub new_replay_protection : ReplayProtection
unfolding new_replay_protection_with_window
new_replay_protection = new_replay_protection_with_window default_window_size

pub data ReplayError : Type 0 where
  empty_cell duplicate_digest duplicate_sequence too_old too_far_ahead : ReplayError

-- `validateSequence`, with the window size first.
unfoldable pub validate_sequence : ℕ → ℕ → ℕ → List ℕ → Result ReplayError (Unit {0})
validate_sequence size seq_num expected window = do
  refuse_if (elem seq_num window) duplicate_sequence
  refuse_if (ltb size expected && ltb seq_num (expected - size)) too_old
  let max_ahead = u64 (size * 2)
  refuse_if (ltb (u64 (expected + max_ahead)) seq_num) too_far_ahead
  ok tt

-- `cleanupWindow`
unfoldable pub cleanup_window : ℕ → Track → Track
cleanup_window size t =
    let min_valid = if ltb size t.seq then t.seq - size else 0 in
    record t { window = keep_set min_valid t.window; digests = keep min_valid t.digests }

-- `r.replayAttempts...++` before an error is returned.
unfoldable pub count_attempt : Track → Track
count_attempt t = record t { replay_attempts = u64 (t.replay_attempts + 1) }

-- The cell is recorded, and counted where it is out of order.
unfoldable pub record_cell : ℕ → Digest → Track → Track
record_cell seq_num digest t = record t {
  window = set_insert seq_num t.window;
  digests = insert digest seq_num t.digests;
  out_of_order = if ltb seq_num t.seq then u64 (t.out_of_order + 1) else t.out_of_order;
}

-- `validateForward` and `validateBackward`
unfoldable pub validate : ℕ → ℕ → Digest → Track → Track × Option ReplayError
unfolding count_attempt record_cell
validate size seq_num digest t = elim (lookup digest t.digests) [
  | some _ ↦ (count_attempt t, some duplicate_digest)
  | none ↦ elim (validate_sequence size seq_num t.seq t.window) [
    | err e ↦ (count_attempt t, some e)
    | ok _ ↦
        let r = record_cell seq_num digest t in
        let s = if leb t.seq seq_num then record r { seq = u64 (seq_num + 1) } else r in
        (cleanup_window size s, none)
  ]
]

-- `validateForwardLocked` and `validateBackwardLocked`, which leave the sequence to the caller
unfoldable pub validate_locked : ℕ → ℕ → Digest → Track → Track × Option ReplayError
unfolding count_attempt record_cell
validate_locked size seq_num digest t = elim (lookup digest t.digests) [
  | some _ ↦ (count_attempt t, some duplicate_digest)
  | none ↦ elim (validate_sequence size seq_num t.seq t.window) [
    | err e ↦ (count_attempt t, some e)
    | ok _ ↦ (cleanup_window size (record_cell seq_num digest t), none)
  ]
]

-- The part of `ValidateAndTrackAuto` below the digest, in one direction.
unfoldable pub validate_auto : ℕ → Digest → Track → Track × Option ReplayError
validate_auto size digest t =
    let (s, e) = validate_locked size t.seq digest t in
    elim e [ some x ↦ (s, some x) | none ↦ (record s { seq = u64 (s.seq + 1) }, none) ]

-- `GetNextSequence` in one direction: the number that is handed out, and the next one.
unfoldable pub take_sequence : Track → Track × ℕ
take_sequence t = (record t { seq = u64 (t.seq + 1) }, t.seq)

-- A step in one of the two directions; the other is left alone.
unfoldable pub in_direction :
    {A : Type 0} → ReplayDirection → (Track → Track × A) → ReplayProtection → ReplayProtection × A
in_direction replay_forward f r = let (t, a) = f r.forward in (record r { forward = t }, a)
in_direction replay_backward f r = let (t, a) = f r.backward in (record r { backward = t }, a)

-- The hash of crypto/sha256 is an argument of the calls that use it.
module _ (sha256 : List ℕ → List ℕ) where
  unfoldable pub digest_of : List ℕ → Digest
  digest_of cell_data = take 16 (sha256 cell_data)

  unfoldable pub validate_and_track :
      ReplayDirection → ℕ → List ℕ → ReplayProtection → ReplayProtection × Option ReplayError
  validate_and_track direction seq_num [] r = (r, some empty_cell)
  validate_and_track direction seq_num (b ∷ bs) r =
      in_direction direction (validate r.window_size seq_num (digest_of (b ∷ bs))) r

  unfoldable pub validate_and_track_auto :
      ReplayDirection → List ℕ → ReplayProtection → ReplayProtection × Option ReplayError
  validate_and_track_auto direction [] r = (r, some empty_cell)
  validate_and_track_auto direction (b ∷ bs) r =
      in_direction direction (validate_auto r.window_size (digest_of (b ∷ bs))) r

unfoldable pub get_next_sequence : ReplayDirection → ReplayProtection → ReplayProtection × ℕ
get_next_sequence direction r = in_direction direction take_sequence r

-- `Reset` keeps the statistics.
reset_track : Track → Track
reset_track t = record t { seq = 0; window = []; digests = [] }

unfoldable pub reset : ReplayProtection → ReplayProtection
unfolding reset_track
reset r = record r { forward = reset_track r.forward; backward = reset_track r.backward }

pub record Stats : Type 0 where
  pub forward_sequence : ℕ
  pub backward_sequence : ℕ
  pub forward_window_size : ℕ
  pub backward_window_size : ℕ
  pub forward_digests : ℕ
  pub backward_digests : ℕ
  pub replay_attempts_forward : ℕ
  pub replay_attempts_backward : ℕ
  pub out_of_order_forward : ℕ
  pub out_of_order_backward : ℕ

unfoldable pub stats : ReplayProtection → Stats
stats r = record {
  forward_sequence = r.forward.seq;
  backward_sequence = r.backward.seq;
  forward_window_size = length r.forward.window;
  backward_window_size = length r.backward.window;
  forward_digests = length r.forward.digests;
  backward_digests = length r.backward.digests;
  replay_attempts_forward = r.forward.replay_attempts;
  replay_attempts_backward = r.backward.replay_attempts;
  out_of_order_forward = r.forward.out_of_order;
  out_of_order_backward = r.backward.out_of_order;
}

unfoldable pub total_replay_attempts : ReplayProtection → ℕ
total_replay_attempts r = u64 (r.forward.replay_attempts + r.backward.replay_attempts)
