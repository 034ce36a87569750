-- ===== src/Circuit/Streams/Read.antt =====
-- Which cell a read of a stream returns, and which cells it throws away.
use go_tor.Prelude.{
  ℕ, suc, ◌≡◌, ◌⊎◌, inl, inr, refl, sym, subst, Bool, true, false, ◌&&◌, ◌||◌, Bool-cases, List, [],
  ◌∷◌, Option, none, some, ◌==◌, if◌then◌else◌, take, drop, get_elem?, All, arith,
}
use go_tor.Cell.Relay.{RelayCell, relay_data, relay_end}
use go_tor.Circuit.Streams.{ReadResult, data_read, end_of_file, read_from_stream}

-- Is it a DATA or END cell of the stream?
unfoldable pub answers : ℕ → RelayCell → Bool
answers stream_id rc =
    rc.stream_id == stream_id && (rc.command == relay_data || rc.command == relay_end)

unfoldable pub answer_of : RelayCell → ReadResult
answer_of rc = if rc.command == relay_data then data_read rc.bytes else end_of_file

abbrev pub FirstAnswer : ℕ → List RelayCell → List RelayCell × Option ReadResult → Type 0
FirstAnswer stream_id rcs r =
    ((r.1 ≡ none) × (r.0 ≡ []) × All (λ rc. answers stream_id rc ≡ false) rcs)
    ⊎ ((i : ℕ) × (rc : RelayCell) × (get_elem? rcs i ≡ some rc)
        × (answers stream_id rc ≡ true)
        × All (λ x. answers stream_id x ≡ false) (take i rcs)
        × (r.1 ≡ some (answer_of rc))
        × (r.0 ≡ drop (suc i) rcs))

read_hit :
    (stream_id : ℕ) (rc : RelayCell) (rcs : List RelayCell)
    → answers stream_id rc ≡ true
    → read_from_stream stream_id (rc ∷ rcs) ≡ (rcs, some (answer_of rc))
unfolding read_from_stream answers answer_of
read_hit stream_id rc rcs h = ground arith

read_miss :
    (stream_id : ℕ) (rc : RelayCell) (rcs : List RelayCell)
    → answers stream_id rc ≡ false
    → read_from_stream stream_id (rc ∷ rcs) ≡ read_from_stream stream_id rcs
unfolding read_from_stream answers
read_miss stream_id rc rcs h = ground arith

FirstAnswer-later :
    (stream_id : ℕ) (rc : RelayCell) (rcs : List RelayCell) (r : List RelayCell × Option ReadResult)
    → answers stream_id rc ≡ false
    → FirstAnswer stream_id rcs r
    → FirstAnswer stream_id (rc ∷ rcs) r
FirstAnswer-later stream_id rc rcs r n (inl (a, b, c)) = inl (a, b, (n, c))
FirstAnswer-later stream_id rc rcs r n (inr (i, x, a, b, c, d, e)) =
    inr (suc i, x, a, b, (n, c), d, e)

-- A read returns the first DATA or END cell of its stream, the bytes of a DATA cell and end of file
-- for END, and leaves the cells behind it; it throws away every cell before it, those of other
-- streams too. With no such cell it empties the channel and waits.
pub read-FirstAnswer :
    (stream_id : ℕ) (rcs : List RelayCell)
    → FirstAnswer stream_id rcs (read_from_stream stream_id rcs)
unfolding read_from_stream
read-FirstAnswer stream_id [] = inl (refl, refl, tt)
read-FirstAnswer stream_id (rc ∷ rcs) = elim (Bool-cases (answers stream_id rc)) [
  | inl h ↦
      subst (FirstAnswer stream_id (rc ∷ rcs)) (sym (read_hit stream_id rc rcs h))
        (inr (0, rc, refl, h, tt, refl, refl))
  | inr h ↦ subst (FirstAnswer stream_id (rc ∷ rcs)) (sym (read_miss stream_id rc rcs h)) (
      FirstAnswer-later stream_id rc rcs (read_from_stream stream_id rcs) h
        (read-FirstAnswer stream_id rcs))
]
