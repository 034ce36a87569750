-- ===== src/Cell/Io.antt =====
-- What the cell code uses of io.Writer, io.Reader and io.ReadFull.
use go_tor.Prelude.{
  ℕ, ◌-◌, ◌≡◌, Bool, true, false, List, ◌++◌, arith, leb, if◌then◌else◌, length, take, drop,
  take-append_exact, drop-append_exact, length-take, take-append-drop, length-append, Option, none,
  some,
}

-- A writer takes `room` more bytes, then every further write fails.
pub record Writer : Type 0 where
  pub written : List ℕ
  pub room : ℕ

-- `w.Write(p)`, and `binary.Write` of the bytes of a fixed-size value. What does not fit is written
-- in part, with an error.
unfoldable pub write : Writer → List ℕ → Writer × Bool
write w p =
    if leb (length p) w.room
    then (record { written = w.written ++ p; room = w.room - length p }, true)
    else (record { written = w.written ++ take w.room p; room = 0 }, false)

-- `io.ReadFull` and `binary.Read` of `n` bytes: the bytes and the rest, or `none` at the end of the
-- input (io.EOF or io.ErrUnexpectedEOF).
unfoldable pub read_full : ℕ → List ℕ → Option (List ℕ × List ℕ)
read_full n r = if leb n (length r) then some (take n r, drop n r) else none

pub read_full_append :
    (n : ℕ) (xs rest : List ℕ) → length xs ≡ n → read_full n (xs ++ rest) ≡ some (xs, rest)
unfolding read_full
read_full_append n xs rest h =
    ground
      (arith, length-append xs rest, take-append_exact n xs rest h, drop-append_exact n xs rest h)

-- A read that succeeds splits the input at the count asked for.
pub read_full_split :
    (n : ℕ) (r : List ℕ) (p rest : List ℕ)
    → read_full n r ≡ some (p, rest)
    → (r ≡ p ++ rest) × (length p ≡ n)
unfolding read_full
read_full_split n r p rest h = ground (arith, take-append-drop n r, length-take n r)

pub write_fits :
    (w : Writer) (p : List ℕ)
    → leb (length p) w.room ≡ true
    → write w p ≡ (record { written = w.written ++ p; room = w.room - length p }, true)
unfolding write
write_fits w p h = rw h

pub write_full :
    (w : Writer) (p : List ℕ)
    → leb (length p) w.room ≡ false
    → write w p ≡ (record { written = w.written ++ take w.room p; room = 0 }, false)
unfolding write
write_full w p h = rw h
