-- ===== src/Cell/Codec/RoundTrip.antt =====
-- `decode_cell` reads back what `encode` wrote, whatever follows it, and `encode` writes back what
-- `decode_cell` read.
use go_tor.Prelude.{
  ℕ, zero, ◌-◌, ◌≤◌, ◌<◌, ◌^◌, ◌≡◌, refl, ◌∙◌, true, false, List, [], ◌∷◌, ◌++◌, if◌then◌else◌,
  take_all, length, replicate, length-append, length-replicate, be16, be32, arith, Result, ok,
  Bool-cases, inl, inr, AreBytes, of_be16-be16, of_be32-be32,
}
use go_tor.Cell.Io.{read_full_append}
use go_tor.Cell.Codec.{
  Cell, is_variable_length, payload_len, DecodeError, decode_cell, encode, decode_payload, read_or,
  uint16_of, uint32_of, byte_of, read_circ_id_failed, read_command_failed,
  read_fixed_payload_failed, read_length_failed, read_variable_payload_failed,
}
use go_tor.Cell.Codec.Bytes.{wire, body, encode_writes}

-- The fields are in the range of their Go types, and the payload fits its cell.
pub record IsCell (c : Cell) : Type 0 where
  pub id_range : c.circ_id < 2 ^ 32
  pub command_range : c.command < 256
  pub payload_bytes : AreBytes c.payload
  pub payload_fits :
      length c.payload ≤ (if is_variable_length c.command then 65535 else payload_len)

-- The cell as the other end sees it: a fixed-size payload comes with its padding.
unfoldable pub padded : Cell → Cell
padded c =
    if is_variable_length c.command
    then c
    else record c { payload = c.payload ++ replicate (payload_len - length c.payload) 0 }

read_or_append :
    {A : Type 0} (e : DecodeError) (n : ℕ) (xs rest : List ℕ)
    (next : List ℕ → List ℕ → Result DecodeError A)
    → length xs ≡ n
    → read_or e n (xs ++ rest) next ≡ next xs rest
read_or_append e n xs rest next h = cc (read_full_append n xs rest h)

decode_payload_variable :
    (c : Cell) (rest : List ℕ)
    → IsCell c
    → is_variable_length c.command ≡ true
    → decode_payload c.circ_id c.command ((be16 (length c.payload) ++ c.payload) ++ rest)
      ≡ ok (c, rest)
unfolding decode_payload
decode_payload_variable c rest h v = rw v (
    read_or_append {A = Cell × List ℕ} read_length_failed 2 (be16 (length c.payload))
      (c.payload ++ rest)
      (λ l s.
        read_or read_variable_payload_failed (uint16_of l) s
          (λ p t. ok (record { circ_id = c.circ_id; command = c.command; payload = p }, t)))
      refl
    ∙ read_or_append {A = Cell × List ℕ} read_variable_payload_failed
        (uint16_of (be16 (length c.payload))) c.payload rest
        (λ p t. ok (record { circ_id = c.circ_id; command = c.command; payload = p }, t))
        (ground (arith, of_be16-be16 (length c.payload))))

decode_payload_fixed :
    (c : Cell) (rest : List ℕ)
    → IsCell c
    → is_variable_length c.command ≡ false
    → decode_payload c.circ_id c.command
        ((c.payload ++ replicate (payload_len - length c.payload) 0) ++ rest)
      ≡ ok (record c { payload = c.payload ++ replicate (payload_len - length c.payload) 0 }, rest)
unfolding decode_payload
decode_payload_fixed c rest h f = rw f (
    read_or_append {A = Cell × List ℕ} read_fixed_payload_failed payload_len
      (c.payload ++ replicate (payload_len - length c.payload) 0) rest
      (λ p t. ok (record { circ_id = c.circ_id; command = c.command; payload = p }, t))
      (ground (
        arith,
        length-append c.payload (replicate (payload_len - length c.payload) 0),
        length-replicate (payload_len - length c.payload) zero,
      )))

decode_body :
    (c : Cell) (rest : List ℕ)
    → IsCell c
    → decode_payload c.circ_id c.command (body c ++ rest) ≡ ok (padded c, rest)
unfolding padded
decode_body c rest h = elim (Bool-cases (is_variable_length c.command)) [
  | inl v ↦ rw v (decode_payload_variable c rest h v)
  | inr f ↦ rw f (decode_payload_fixed c rest h f)
]

-- Decoding the wire form of a cell, with any bytes after it, gives the cell (a fixed-size one with
-- the padding of its payload) and exactly those bytes.
pub decode_cell-wire :
    (c : Cell) (rest : List ℕ) → IsCell c → decode_cell (wire c ++ rest) ≡ ok (padded c, rest)
unfolding decode_cell
decode_cell-wire c rest h =
    read_or_append {A = Cell × List ℕ} read_circ_id_failed 4 (be32 c.circ_id)
      ((c.command ∷ body c) ++ rest)
      (λ i s. read_or read_command_failed 1 s (λ k t. decode_payload (uint32_of i) (byte_of k) t))
      refl
    ∙ read_or_append {A = Cell × List ℕ} read_command_failed 1 (c.command ∷ []) (body c ++ rest)
        (λ k t. decode_payload (uint32_of (be32 c.circ_id)) (byte_of k) t) refl
    ∙ rw (of_be32-be32 c.circ_id h.id_range) (decode_body c rest h)

-- A cell in range, encoded to a writer with room for it and nothing written yet, decodes to the same
-- cell, a fixed-size one with its payload padded to 509 bytes, and leaves what follows it.
pub decode_cell-encode :
    (c : Cell) (room : ℕ) (rest : List ℕ)
    → IsCell c
    → length (wire c) ≤ room
    → decode_cell ((encode c (record { written = []; room = room })).0.written ++ rest)
      ≡ ok (padded c, rest)
decode_cell-encode c room rest h fits =
    rw
      (
        (encode_writes c (record { written = []; room = room }) (ground arith)).0,
        take_all room (wire c) fits,
      )
      (decode_cell-wire c rest h)
