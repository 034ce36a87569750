-- ===== src/Cell/Relay.antt =====
-- pkg/cell/relay.go: relay cells, the payload of a RELAY link cell.
pub mod RoundTrip
pub mod Typed
mod Tests
use go_tor.Prelude.{
  ℕ, ◌+◌, ◌-◌, ◌*◌, Bool, List, [], ◌∷◌, ◌++◌, Result, ok, err, ltb, if◌then◌else◌, length, take,
  drop, replicate, be16, of_be16, refuse_if, ◌>>=◌, ◌>>◌,
}
use go_tor.Cell.Codec.{payload_len, uint16_of, byte_of}
use go_tor.Security.Convert.{safe_len_to_uint16}

abbrev pub relay_data : ℕ
relay_data = 2

abbrev pub relay_begin : ℕ
relay_begin = 1

abbrev pub relay_end : ℕ
relay_end = 3

abbrev pub relay_connected : ℕ
relay_connected = 4

abbrev pub relay_sendme : ℕ
relay_sendme = 5

abbrev pub relay_cell_header_len : ℕ
relay_cell_header_len = 11

-- `digest` has four bytes.
pub record RelayCell : Type 0 where
  pub command : ℕ  -- byte
  pub recognized : ℕ  -- uint16
  pub stream_id : ℕ  -- uint16
  pub digest : List ℕ
  pub length_field : ℕ  -- uint16, `Length`
  pub bytes : List ℕ  -- `Data`

unfoldable pub new_relay_cell : ℕ → ℕ → List ℕ → RelayCell
new_relay_cell stream_id cmd bytes = record {
  command = cmd;
  recognized = 0;
  stream_id = stream_id;
  digest = 0 ∷ 0 ∷ 0 ∷ 0 ∷ [];
  length_field = elim (safe_len_to_uint16 bytes) [ ok n ↦ n | err _ ↦ 65535 ];
  bytes = bytes;
}

pub data RelayError : Type 0 where
  payload_too_large payload_too_short length_exceeds_maximum length_exceeds_payload : RelayError

abbrev pub max_data_len : ℕ
max_data_len = payload_len - relay_cell_header_len

-- `copy(dst[at:], src)`: as many bytes as both have, the others of `dst` kept.
abbrev pub copy_at : List ℕ → ℕ → List ℕ → List ℕ
copy_at dst at src = take at dst ++ (take (length dst - at) src ++ drop (at + length src) dst)

-- The buffer is written piece by piece, as in the source.
unfoldable pub encode_relay : RelayCell → Result RelayError (List ℕ)
encode_relay rc = do
  refuse_if (ltb max_data_len (length rc.bytes)) payload_too_large
  let p0 = replicate payload_len 0
  let p1 = copy_at p0 0 (rc.command ∷ [])
  let p2 = copy_at p1 1 (be16 rc.recognized)
  let p3 = copy_at p2 3 (be16 rc.stream_id)
  let p4 = copy_at p3 5 (take 4 rc.digest)
  let p5 = copy_at p4 9 (be16 rc.length_field)
  ok (copy_at p5 11 rc.bytes)

-- `payload[from:to]`
abbrev pub slice : List ℕ → ℕ → ℕ → List ℕ
slice p from to = take (to - from) (drop from p)

-- `maxDataLen` and `rc.Length` are uint16, the second test is on int.
unfoldable pub decode_relay_cell : List ℕ → Result RelayError RelayCell
decode_relay_cell payload = do
  refuse_if (ltb (length payload) relay_cell_header_len) payload_too_short
  let n = uint16_of (slice payload 9 11)
  refuse_if (ltb max_data_len n) length_exceeds_maximum
  refuse_if (ltb (length payload - relay_cell_header_len) n) length_exceeds_payload
  ok (record {
    command = byte_of payload;
    recognized = uint16_of (slice payload 1 3);
    stream_id = uint16_of (slice payload 3 5);
    digest = slice payload 5 9;
    length_field = n;
    bytes = if ltb 0 n then slice payload 11 (11 + n) else [];
  })
