-- ===== src/Cell/Codec/Tests.antt =====
-- Runs of the cell codec, and its theorems at concrete cells.
use go_tor.Prelude.{◌≡◌, refl, [], ◌∷◌, ◌++◌, arith, ok, err}
use go_tor.Cell.Io.{Writer, write, read_full}
use go_tor.Security.Convert.{safe_len_to_uint16}
use go_tor.Cell.Codec.{Cell, encode, decode_cell, read_command_failed, read_length_failed}
use go_tor.Cell.Codec.Bytes.{wire}
use go_tor.Cell.Codec.RoundTrip.{IsCell, padded, decode_cell-encode}
use go_tor.Cell.Codec.Sound.{decode_cell_sound}

-- An AUTH_CHALLENGE cell, and a RELAY cell with three payload bytes.
abbrev challenge : Cell
challenge = record { circ_id = 0x80000001; command = 130; payload = 7 ∷ 8 ∷ [] }

abbrev relay : Cell
relay = record { circ_id = 5; command = 3; payload = 1 ∷ 2 ∷ 3 ∷ [] }

abbrev fresh : Writer
fresh = record { written = []; room = 600 }

challenge_bytes : (encode challenge fresh).0.written ≡ 128 ∷ 0 ∷ 0 ∷ 1 ∷ 130 ∷ 0 ∷ 2 ∷ 7 ∷ 8 ∷ []
unfolding encode write safe_len_to_uint16
challenge_bytes = refl

short_input : decode_cell (0 ∷ 0 ∷ 0 ∷ 1 ∷ []) ≡ err read_command_failed
unfolding decode_cell read_full
short_input = refl

short_length : decode_cell (0 ∷ 0 ∷ 0 ∷ 1 ∷ 130 ∷ 0 ∷ []) ≡ err read_length_failed
unfolding decode_cell read_full
short_length = refl

challenge_decoded :
    decode_cell (128 ∷ 0 ∷ 0 ∷ 1 ∷ 130 ∷ 0 ∷ 2 ∷ 7 ∷ 8 ∷ 9 ∷ []) ≡ ok (challenge, 9 ∷ [])
unfolding decode_cell read_full
challenge_decoded = refl

relay-IsCell : IsCell relay
relay-IsCell = omega arith

decode_cell-encode_example :
    decode_cell ((encode relay fresh).0.written ++ (4 ∷ [])) ≡ ok (padded relay, 4 ∷ [])
decode_cell-encode_example = decode_cell-encode relay 600 (4 ∷ []) relay-IsCell (omega arith)

decode_cell_sound_example :
    (128 ∷ 0 ∷ 0 ∷ 1 ∷ 130 ∷ 0 ∷ 2 ∷ 7 ∷ 8 ∷ 9 ∷ [] ≡ wire challenge ++ (9 ∷ [])) × IsCell challenge
decode_cell_sound_example =
    decode_cell_sound (128 ∷ 0 ∷ 0 ∷ 1 ∷ 130 ∷ 0 ∷ 2 ∷ 7 ∷ 8 ∷ 9 ∷ []) (omega arith)
      challenge_decoded
