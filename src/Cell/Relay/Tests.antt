-- ===== src/Cell/Relay/Tests.antt =====
-- Runs of the relay cell codec, and its theorems at concrete cells.
use go_tor.Prelude.{List, ℕ, ◌≡◌, refl, [], ◌∷◌, ok, err, arith, ◌>>=◌}
use go_tor.Cell.Relay.{
  RelayCell, relay_data, length_exceeds_payload, encode_relay, decode_relay_cell,
}
use go_tor.Cell.Relay.Typed.{OfOk, Typed, IsPayload, relay_cells-Typed}
use go_tor.Cell.Relay.RoundTrip.{IsRelayCell, decode_relay_cell-encode_relay}

abbrev hello : RelayCell
hello = record {
  command = relay_data;
  recognized = 0;
  stream_id = 300;
  digest = 1 ∷ 2 ∷ 3 ∷ 4 ∷ [];
  length_field = 2;
  bytes = 104 ∷ 105 ∷ [];
}

hello-IsRelayCell : IsRelayCell hello
hello-IsRelayCell = omega arith

cut_short :
    decode_relay_cell (2 ∷ 0 ∷ 0 ∷ 0 ∷ 1 ∷ 0 ∷ 0 ∷ 0 ∷ 0 ∷ 0 ∷ 2 ∷ 9 ∷ [])
    ≡ err length_exceeds_payload
unfolding decode_relay_cell
cut_short = refl

decode_relay_cell-encode_relay_example : (encode_relay hello >>= decode_relay_cell) ≡ ok hello
decode_relay_cell-encode_relay_example =
    decode_relay_cell-encode_relay hello hello-IsRelayCell (omega arith)

-- A relay cell of no data, with three bytes behind it.
abbrev padded_end : List ℕ
padded_end = 3 ∷ 0 ∷ 0 ∷ 1 ∷ 44 ∷ 9 ∷ 8 ∷ 7 ∷ 6 ∷ 0 ∷ 0 ∷ 1 ∷ 2 ∷ 3 ∷ []

relay_cells-Typed_example :
    OfOk Typed (decode_relay_cell padded_end) × OfOk IsPayload (encode_relay hello)
relay_cells-Typed_example =
    relay_cells-Typed padded_end hello (omega arith) (omega arith) (omega arith) (omega arith)
