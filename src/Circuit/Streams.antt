-- ===== src/Circuit/Streams.antt =====
-- pkg/circuit/circuit.go: the calls that the proxy makes for a stream.
-- A string is its bytes. A read that finds the channel empty waits: it is cut into the cells it finds.
pub mod Read
pub mod Decimal
mod Tests
use go_tor.Prelude.{
  ℕ, zero, suc, ◌+◌, ◌/◌, ◌%◌, Bool, true, false, not, List, [], ◌∷◌, ◌++◌, Option, none, some,
  Result, ok, err, ltb, ◌==◌, if◌then◌else◌, refuse_if, ◌>>=◌, ◌>>◌,
}
use go_tor.Cell.Relay.{
  RelayCell, new_relay_cell, relay_begin, relay_data, relay_end, relay_connected,
}
use go_tor.Circuit.Core.{Circuit}
use go_tor.Circuit.Flow.{Sent, send_relay_cell}

-- `%d`, for a number of at most `fuel` digits.
unfoldable pub decimal : ℕ → ℕ → List ℕ
decimal zero n = []
decimal (suc fuel) n =
    let rest = decimal fuel (n / 10) in
    if ltb n 10 then (48 + n) ∷ [] else rest ++ ((48 + n % 10) ∷ [])

-- `%s:%d\x00`; a port is a uint16, of at most five digits.
unfoldable pub begin_payload : List ℕ → ℕ → List ℕ
unfolding decimal
begin_payload target port = target ++ (58 ∷ decimal 5 port) ++ (0 ∷ [])

pub data OpenError : Type 0 where
  begin_failed not_received wrong_stream unexpected_command : OpenError
  rejected : Option ℕ → OpenError  -- the reason, where the cell has one

abbrev first_byte : List ℕ → Option ℕ
first_byte [] = none
first_byte (b ∷ bs) = some b

-- `OpenStream` from the cell that ReceiveRelayCell returns; `none` is a call that timed out.
unfoldable pub await_connected : ℕ → Option RelayCell → Result OpenError (Unit {0})
await_connected stream_id none = err not_received
await_connected stream_id (some rc) = do
  refuse_if (not (rc.stream_id == stream_id)) wrong_stream
  refuse_if (rc.command == relay_end) (rejected (first_byte rc.bytes))
  refuse_if (not (rc.command == relay_connected)) unexpected_command

-- The end of a stream, or its bytes.
pub data ReadResult : Type 0 where
  data_read : List ℕ → ReadResult
  end_of_file : ReadResult

-- `ReadFromStream` on the cells in the channel: the cells left, and `none` where the call still waits.
unfoldable pub read_from_stream : ℕ → List RelayCell → List RelayCell × Option ReadResult
read_from_stream stream_id [] = ([], none)
read_from_stream stream_id (rc ∷ rcs) =
    let rest = read_from_stream stream_id rcs in
    if not (rc.stream_id == stream_id)
    then rest
    else if rc.command == relay_data
    then (rcs, some (data_read rc.bytes))
    else if rc.command == relay_end
    then (rcs, some end_of_file)
    else rest

module _ (sha1 : List ℕ → List ℕ) where
  -- `OpenStream`, with the cell that is received after the BEGIN cell was sent.
  unfoldable pub open_stream :
      ℕ → Bool → ℕ → List ℕ → ℕ → Option RelayCell → Circuit → Sent × Result OpenError (Unit {0})
  open_stream now accepts stream_id target port received c =
      let s =
        send_relay_cell sha1 now accepts
          (new_relay_cell stream_id relay_begin (begin_payload target port)) c in
      (s, elim s.error [ some _ ↦ err begin_failed | none ↦ await_connected stream_id received ])

  unfoldable pub write_to_stream : ℕ → Bool → ℕ → List ℕ → Circuit → Sent
  write_to_stream now accepts stream_id bytes c =
      send_relay_cell sha1 now accepts (new_relay_cell stream_id relay_data bytes) c

  unfoldable pub end_stream : ℕ → Bool → ℕ → ℕ → Circuit → Sent
  end_stream now accepts stream_id reason c =
      send_relay_cell sha1 now accepts (new_relay_cell stream_id relay_end (reason ∷ [])) c
