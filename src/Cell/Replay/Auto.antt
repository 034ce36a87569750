-- ===== src/Cell/Replay/Auto.antt =====
-- The automatic mode, `ValidateAndTrackAuto`, against its specification: a history of the accepted
-- digests, newest first, of which the last `window size + 1` are remembered.
use go_tor.Prelude.{
  ℕ, suc, ◌+◌, ◌-◌, ◌*◌, ◌<◌, ◌^◌, ◌≡◌, refl, ◌∙◌, ap, false, List, ◌∷◌, Option, none, some, ok,
  ltb, if◌then◌else◌, length, take, arith, inl, inr,
}
use go_tor.Prelude.Subset.{elem}
use go_tor.Cell.Replay.{
  Track, validate_sequence, validate_locked, validate_auto, cleanup_window, record_cell,
  duplicate_digest, ReplayError, count_attempt, u64,
}
use go_tor.Cell.Replay.Table.{
  Digest, lookup, delete, insert, keep, set_insert, keep_set, delete_absent, keep_head,
  keep_set_head, set_insert_absent,
}
use go_tor.Cell.Replay.History.{
  tagged, countdown, remembered, low_of, keep_survivors, keep_set_survivors, lookup-tagged,
  elem-countdown,
}

-- The state of a direction that stands for a history.
pub record Simulates (size : ℕ) (t : Track) (h : List Digest) : Type 0 where
  pub seq_exact : t.seq ≡ length h
  pub digests_exact : t.digests ≡ take (suc size) (tagged h)
  pub window_exact : t.window ≡ take (suc size) (countdown (length h))

-- The specification of one call.
unfoldable pub accept : ℕ → Digest → List Digest → List Digest × Option ReplayError
accept size d h =
    if remembered d (take (suc size) h) then (h, some duplicate_digest) else (d ∷ h, none)

next_in_sequence :
    (size n : ℕ) (window : List ℕ)
    → elem n window ≡ false
    → n + size * 2 < 2 ^ 64
    → validate_sequence size n n window ≡ ok tt
unfolding validate_sequence
next_in_sequence size n window h b = ground arith

refused_lem :
    (size : ℕ) (d : Digest) (t : Track) (v : ℕ)
    → lookup d t.digests ≡ some v
    → validate_auto size d t ≡ (count_attempt t, some duplicate_digest)
unfolding validate_auto validate_locked
refused_lem size d t v h = ground arith

accepted_lem :
    (size : ℕ) (d : Digest) (t : Track)
    → lookup d t.digests ≡ none
    → validate_sequence size t.seq t.seq t.window ≡ ok tt
    → validate_auto size d t
      ≡ (record (cleanup_window size (record_cell t.seq d t)) { seq = u64 (t.seq + 1) }, none)
unfolding validate_auto validate_locked cleanup_window
accepted_lem size d t h k = ground arith

-- What recording and cleaning make of the two maps.
cleaned_digests :
    (size : ℕ) (d : Digest) (t : Track)
    → (cleanup_window size (record_cell t.seq d t)).digests
      ≡ keep (low_of size t.seq) ((d, t.seq) ∷ delete d t.digests)
unfolding cleanup_window record_cell insert
cleaned_digests size d t = refl

cleaned_window :
    (size : ℕ) (d : Digest) (t : Track)
    → (cleanup_window size (record_cell t.seq d t)).window
      ≡ keep_set (low_of size t.seq) (set_insert t.seq t.window)
unfolding cleanup_window record_cell
cleaned_window size d t = refl

module _ (size : ℕ) (d : Digest) (t : Track) (h : List Digest) (s : Simulates size t h) where
  head_kept : ltb (length h) (low_of size (length h)) ≡ false
  head_kept = ground arith

  recorded_digests :
      lookup d t.digests ≡ none
      → keep (low_of size t.seq) ((d, t.seq) ∷ delete d t.digests)
        ≡ (d, length h) ∷ take size (tagged h)
  recorded_digests absent =
      rw
        (
          delete_absent d t.digests absent,
          s.seq_exact,
          s.digests_exact,
          keep_head (low_of size (length h)) d (length h) (take (suc size) (tagged h)) head_kept,
        )
        (ap (λ m. (d, length h) ∷ m) (keep_survivors size h))

  recorded_window :
      keep_set (low_of size t.seq) (set_insert t.seq t.window)
      ≡ length h ∷ take size (countdown (length h))
  recorded_window =
      let fresh : elem (length h) (take (suc size) (countdown (length h))) ≡ false =
        elem-countdown (length h) (suc size) (length h) (omega arith) in
      rw
        (
          s.seq_exact,
          s.window_exact,
          set_insert_absent (length h) (take (suc size) (countdown (length h))) fresh,
          keep_set_head (low_of size (length h)) (length h) (take (suc size) (countdown (length h)))
              head_kept,
        )
        (ap (λ m. length h ∷ m) (keep_set_survivors size (length h)))

  recorded_lem :
      lookup d t.digests ≡ none
      → length h < 2 ^ 64 - 1
      → Simulates size
          (record (cleanup_window size (record_cell t.seq d t)) { seq = u64 (t.seq + 1) })
          (d ∷ h)
  recorded_lem absent bound = record {
    seq_exact = omega (arith, s.seq_exact);
    digests_exact = cleaned_digests size d t ∙ recorded_digests absent;
    window_exact = cleaned_window size d t ∙ recorded_window;
  }

attempt-Simulates :
    {size : ℕ} {t : Track} {h : List Digest}
    → Simulates size t h
    → Simulates size (count_attempt t) h
unfolding count_attempt
attempt-Simulates s = ground arith

-- One automatic call on a state that stands for a history gives the verdict of the specification,
-- and a state that stands for the new history.
pub validate_auto-Simulates :
    (size : ℕ) (d : Digest) (t : Track) (h : List Digest)
    → Simulates size t h
    → length h + size * 2 + 1 < 2 ^ 64
    → Simulates size (validate_auto size d t).0 (accept size d h).0
      × ((validate_auto size d t).1 ≡ (accept size d h).1)
unfolding accept
validate_auto-Simulates size d t h s bound = elim (lookup-tagged d (suc size) h) [
  | inl (new, absent) ↦
      let none_there : lookup d t.digests ≡ none = rw s.digests_exact absent in
      let unseen : elem t.seq t.window ≡ false =
        rw (s.seq_exact, s.window_exact)
          (elem-countdown (length h) (suc size) (length h) (omega arith)) in
      let valid : validate_sequence size t.seq t.seq t.window ≡ ok tt =
        next_in_sequence size t.seq t.window unseen (omega (arith, s.seq_exact)) in
      rw (accepted_lem size d t none_there valid, new)
        (recorded_lem size d t h s none_there (omega arith), refl)
  | inr (v, old, present) ↦
      rw (refused_lem size d t v (rw s.digests_exact present), old) (attempt-Simulates s, refl)
]
