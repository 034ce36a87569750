-- ===== src/Stream.antt =====
-- pkg/stream/stream.go: the streams on the circuits, their queues, and their manager.
-- A channel is the list of what is in it, or closed; a byte slice is its bytes. Where several cases of
-- a select are ready, Go takes any of them, and here an argument says whether it is the queue. The
-- streams live in a heap, as their users share them. What is logged is left out.
pub mod Queues
pub mod Named
mod Tests
use go_tor.Prelude.{
  ℕ, zero, suc, ◌+◌, ◌%◌, ◌^◌, Bool, true, false, List, [], ◌∷◌, ◌++◌, Option, none, some, Result,
  ok, err, ltb, ◌==◌, ◌&&◌, ◌||◌, if◌then◌else◌, length, get_elem?, set, not,
}
use go_tor.Prelude.Refs.{find, delete}

pub data StreamState : Type 0 where
  state_new state_connecting state_connected state_stream_closed state_stream_failed : StreamState

abbrev pub is_connected : StreamState → Bool
is_connected state_connected = true
is_connected _ = false

abbrev pub Bytes : Type 0
Bytes = List ℕ

pub record Stream : Type 0 where
  pub id : ℕ  -- uint16
  pub circuit_id : ℕ  -- uint32
  pub target : Bytes
  pub port : ℕ  -- uint16
  pub state : StreamState
  pub created_at : ℕ
  pub send_queue : List Bytes
  pub recv_queue : List Bytes
  pub is_closed : Bool  -- `closeChan` is closed, `closeOnce` has run

unfoldable pub new_stream : ℕ → ℕ → ℕ → Bytes → ℕ → Stream
new_stream now id circuit_id target port = record {
  id = id;
  circuit_id = circuit_id;
  target = target;
  port = port;
  state = state_new;
  created_at = now;
  send_queue = [];
  recv_queue = [];
  is_closed = false;
}

unfoldable pub set_stream_state : StreamState → Stream → Stream
set_stream_state state s = record s { state = state }

pub data StreamError : Type 0 where
  not_connected end_of_file send_queue_full receive_queue_full : StreamError

abbrev pub queue_capacity : ℕ
queue_capacity = 32

-- A select with a send to a queue, the closed channel, and a default.
unfoldable pub offer :
    StreamError → Bool → Bool → Bytes → List Bytes → List Bytes × Option StreamError
offer full prefers_queue closed bytes queue =
    if ltb (length queue) queue_capacity && (prefers_queue || not closed)
    then (queue ++ (bytes ∷ []), none)
    else (queue, some (if closed then end_of_file else full))

-- A select with a receive from a queue, the closed channel, and a context: `ok none` is a call that
-- waits until its context is done.
unfoldable pub poll : Bool → Bool → List Bytes → List Bytes × Result StreamError (Option Bytes)
poll prefers_queue closed [] = ([], if closed then err end_of_file else ok none)
poll prefers_queue closed (b ∷ bs) =
    if prefers_queue || not closed then (bs, ok (some b)) else (b ∷ bs, err end_of_file)

unfoldable pub send : Bool → Bytes → Stream → Stream × Option StreamError
unfolding offer
send prefers_queue bytes s =
    if not (is_connected s.state)
    then (s, some not_connected)
    else let (queue, e) = offer send_queue_full prefers_queue s.is_closed bytes s.send_queue in
      (record s { send_queue = queue }, e)

unfoldable pub receive : Bool → Stream → Stream × Result StreamError (Option Bytes)
unfolding poll
receive prefers_queue s =
    let (queue, r) = poll prefers_queue s.is_closed s.recv_queue in
    (record s { recv_queue = queue }, r)

unfoldable pub receive_data : Bool → Bytes → Stream → Stream × Option StreamError
unfolding offer
receive_data prefers_queue bytes s =
    let (queue, e) = offer receive_queue_full prefers_queue s.is_closed bytes s.recv_queue in
    (record s { recv_queue = queue }, e)

unfoldable pub send_data : Bool → Stream → Stream × Result StreamError (Option Bytes)
unfolding poll
send_data prefers_queue s =
    let (queue, r) = poll prefers_queue s.is_closed s.send_queue in
    (record s { send_queue = queue }, r)

unfoldable pub close_stream : Stream → Stream
close_stream s =
    if s.is_closed then s else record s { is_closed = true; state = state_stream_closed }

pub record StreamManager : Type 0 where
  pub streams : List (ℕ × ℕ)  -- from uint16 identifiers to references
  pub next_stream_id : ℕ  -- uint16
  pub is_shut : Bool  -- `closeChan` is closed, `closeOnce` has run

unfoldable pub new_stream_manager : StreamManager
new_stream_manager = record { streams = []; next_stream_id = 1; is_shut = false }

pub data StreamManagerError : Type 0 where
  manager_shut stream_not_found : StreamManagerError

-- `m.nextID++`, which skips zero.
unfoldable pub following : ℕ → ℕ
following id = if (id + 1) % 2 ^ 16 == 0 then 1 else (id + 1) % 2 ^ 16

-- The stream is returned by its reference.
unfoldable pub create_stream :
    ℕ
    → ℕ
    → Bytes
    → ℕ
    → List Stream
    → StreamManager
    → List Stream × StreamManager × Result StreamManagerError ℕ
create_stream now circuit_id target port heap m =
    if m.is_shut then (heap, m, err manager_shut) else (
      heap ++ (new_stream now m.next_stream_id circuit_id target port ∷ []),
      record m {
        streams = (m.next_stream_id, length heap) ∷ delete m.next_stream_id m.streams;
        next_stream_id = following m.next_stream_id;
      },
      ok (length heap),
    )

unfoldable pub get_stream : ℕ → StreamManager → Result StreamManagerError ℕ
get_stream id m = elim (find id m.streams) [ none ↦ err stream_not_found | some r ↦ ok r ]

closed_stream : ℕ → List Stream → Option Stream → List Stream
closed_stream r heap none = heap
closed_stream r heap (some s) = set heap r (close_stream s)

-- `stream.Close()` on the object a reference stands for.
unfoldable pub close_stream_at : ℕ → List Stream → List Stream
unfolding closed_stream
close_stream_at r heap = closed_stream r heap (get_elem? heap r)

remove_entry :
    ℕ
    → List Stream
    → StreamManager
    → Option ℕ
    → List Stream × StreamManager × Option StreamManagerError
remove_entry id heap m none = (heap, m, some stream_not_found)
remove_entry id heap m (some r) =
    (close_stream_at r heap, record m { streams = delete id m.streams }, none)

unfoldable pub remove_stream :
    ℕ → List Stream → StreamManager → List Stream × StreamManager × Option StreamManagerError
unfolding remove_entry
remove_stream id heap m = remove_entry id heap m (find id m.streams)

unfoldable pub close_streams : List (ℕ × ℕ) → List Stream → List Stream
unfolding close_stream_at
close_streams [] heap = heap
close_streams ((id, r) ∷ m) heap = close_streams m (close_stream_at r heap)

unfoldable pub shut_down : List Stream → StreamManager → List Stream × StreamManager
unfolding close_streams
shut_down heap m =
    if m.is_shut
    then (heap, m)
    else (close_streams m.streams heap, record m { is_shut = true; streams = [] })

unfoldable pub stream_count : StreamManager → ℕ
stream_count m = length m.streams
