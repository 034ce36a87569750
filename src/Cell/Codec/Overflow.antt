-- ===== src/Cell/Codec/Overflow.antt =====
-- A fixed-size cell whose payload is longer than 509 bytes: `Encode` has no test for it.
use go_tor.Prelude.{
  ℕ, ◌-◌, ◌≤◌, ◌<◌, ◌^◌, ◌≡◌, sym, ◌∙◌, ap, true, false, List, [], ◌∷◌, ◌++◌, length, take, drop,
  append_assoc, append-nil, be32, arith, ok, AreBytes, All-take, take-append-drop, length-take,
  take_all,
}
use go_tor.Cell.Codec.{Cell, is_variable_length, payload_len, encode, decode_cell}
use go_tor.Cell.Codec.Bytes.{wire, body, is_none, encode_writes}
use go_tor.Cell.Codec.RoundTrip.{IsCell, padded, decode_cell-wire}

abbrev cut : Cell → Cell
cut c = record c { payload = take payload_len c.payload }

cut-IsCell :
    (c : Cell)
    → is_variable_length c.command ≡ false
    → c.circ_id < 2 ^ 32
    → c.command < 256
    → AreBytes c.payload
    → IsCell (cut c)
cut-IsCell c f i k b = record {
  id_range = i;
  command_range = k;
  payload_bytes = All-take _ payload_len c.payload b;
  payload_fits = rw f (omega (arith, length-take payload_len c.payload));
}

body_full :
    (c : Cell)
    → is_variable_length c.command ≡ false
    → payload_len ≤ length c.payload
    → body c ≡ c.payload
body_full c f h =
    let full : payload_len - length c.payload ≡ 0 = omega arith in
    rw (f, full) (append-nil c.payload)

wire_splits :
    (c : Cell) (rest : List ℕ)
    → is_variable_length c.command ≡ false
    → payload_len < length c.payload
    → wire c ++ rest ≡ wire (cut c) ++ (drop payload_len c.payload ++ rest)
wire_splits c rest f h =
    let whole = body_full c f (omega arith) in
    let short = body_full (cut c) f (omega (arith, length-take payload_len c.payload)) in
    ap (λ t. be32 c.circ_id ++ (c.command ∷ t))
      (ap (λ t. t ++ rest) (whole ∙ sym (take-append-drop payload_len c.payload))
        ∙ append_assoc (take payload_len c.payload) (drop payload_len c.payload) rest
        ∙ ap (λ t. t ++ (drop payload_len c.payload ++ rest)) (sym short))

padded-cut :
    (c : Cell)
    → is_variable_length c.command ≡ false
    → payload_len < length c.payload
    → padded (cut c) ≡ cut c
unfolding padded
padded-cut c f h =
    let short = body_full (cut c) f (omega (arith, length-take payload_len c.payload)) in
    rw f (ap (λ t. record c { payload = t }) (rw f at short))

-- A fixed-size cell with more than 509 payload bytes is encoded without an error, and the receiver
-- decodes a cell with the first 509 of them; the others it takes for the start of the next cell.
pub oversize_fixed_splits :
    (c : Cell) (room : ℕ) (rest : List ℕ)
    → is_variable_length c.command ≡ false
    → payload_len < length c.payload
    → c.circ_id < 2 ^ 32
    → c.command < 256
    → AreBytes c.payload
    → length (wire c) ≤ room
    → let sent = encode c (record { written = []; room = room }) in
      (is_none sent.1 ≡ true)
      × (decode_cell (sent.0.written ++ rest)
          ≡ ok (
            record c { payload = take payload_len c.payload },
            drop payload_len c.payload ++ rest,
          ))
oversize_fixed_splits c room rest f h i k b fits =
    let e = encode_writes c (record { written = []; room = room }) (rw f) in
    (
      e.1 ∙ ground arith,
      rw (e.0, take_all room (wire c) fits, wire_splits c rest f h)
          (decode_cell-wire (cut c) (drop payload_len c.payload ++ rest) (cut-IsCell c f i k b)
            ∙ ap (λ t. ok (t, drop payload_len c.payload ++ rest)) (padded-cut c f h)),
    )
