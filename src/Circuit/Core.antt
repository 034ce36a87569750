-- ===== src/Circuit/Core.antt =====
-- pkg/circuit/circuit.go: a circuit, its state, its padding and its own digests.
-- A time is a reading of the monotonic clock in nanoseconds, a duration is not negative. The receive
-- channel is the list of the cells in it. The mutex makes each of these calls one step.
pub mod Padding
mod Tests
use go_tor.Prelude.{
  ℕ, ◌+◌, ◌-◌, ◌*◌, Bool, true, false, not, ◌||◌, List, [], ◌∷◌, ◌++◌, Option, none, some, Result,
  ok, err, ltb, ◌==◌, if◌then◌else◌, length, bytes_eq, refuse_if, ◌>>=◌, ◌>>◌,
}
use go_tor.Cell.Relay.{RelayCell}
use go_tor.Cell.Replay.{
  ReplayProtection, ReplayDirection, ReplayError, Stats, new_replay_protection, stats,
  total_replay_attempts, validate_and_track_auto, reset,
}
use go_tor.Circuit.Crypto.{
  Hop, Direction, direction_forward, direction_backward, DigestError, data_too_short,
  digest_mismatch, digest_not_initialized, zero_digest, write_digest, digest_prefix,
}

pub data State : Type 0 where
  state_building state_open state_closed state_failed : State

abbrev pub is_building : State → Bool
is_building state_building = true
is_building _ = false

abbrev pub is_open : State → Bool
is_open state_open = true
is_open _ = false

-- What `conn` holds: nil, a value without the method SendCell, or one with it.
pub data Connection : Type 0 where
  no_connection no_sender sender : Connection

pub record Circuit : Type 0 where
  pub id : ℕ  -- uint32
  pub state : State
  pub created_at : ℕ
  pub hops : List Hop
  pub conn : Connection
  pub padding_enabled : Bool
  pub padding_interval : ℕ
  pub last_padding_time : ℕ
  pub last_activity_time : ℕ
  pub forward_digest : Option (List ℕ)
  pub backward_digest : Option (List ℕ)
  pub relay_receive_chan : List RelayCell
  pub package_window : ℕ
  pub deliver_window : ℕ
  pub sendme_received : ℕ
  pub sendme_sent : ℕ
  pub replay_protection : Option ReplayProtection

abbrev pub second : ℕ
second = 1000000000

unfoldable pub new_circuit : ℕ → ℕ → Circuit
unfolding new_replay_protection
new_circuit now id = record {
  id = id;
  state = state_building;
  created_at = now;
  hops = [];
  conn = no_connection;
  padding_enabled = true;
  padding_interval = 5 * second;
  last_padding_time = now;
  last_activity_time = now;
  forward_digest = some [];
  backward_digest = some [];
  relay_receive_chan = [];
  package_window = 1000;
  deliver_window = 1000;
  sendme_received = 0;
  sendme_sent = 0;
  replay_protection = some new_replay_protection;
}

pub data CircuitError : Type 0 where
  cannot_add_hop : CircuitError

unfoldable pub add_hop : Hop → Circuit → Result CircuitError Circuit
add_hop hop c = do
  refuse_if (not (is_building c.state)) cannot_add_hop
  ok (record c { hops = c.hops ++ (hop ∷ []) })

unfoldable pub set_state : State → Circuit → Circuit
set_state s c = record c { state = s }

unfoldable pub set_connection : Connection → Circuit → Circuit
set_connection conn c = record c { conn = conn }

unfoldable pub hop_count : Circuit → ℕ
hop_count c = length c.hops

unfoldable pub is_ready : Circuit → Bool
is_ready c = is_open c.state

unfoldable pub age : ℕ → Circuit → ℕ
age now c = now - c.created_at

unfoldable pub set_padding_enabled : Bool → Circuit → Circuit
set_padding_enabled b c = record c { padding_enabled = b }

unfoldable pub set_padding_interval : ℕ → Circuit → Circuit
set_padding_interval i c = record c { padding_interval = i }

unfoldable pub record_padding_sent : ℕ → Circuit → Circuit
record_padding_sent now c = record c { last_padding_time = now }

unfoldable pub record_activity : ℕ → Circuit → Circuit
record_activity now c = record c { last_activity_time = now }

-- The first argument is the floating-point product with 0.8, rounded down to a duration.
unfoldable pub should_send_padding : (ℕ → ℕ) → ℕ → Circuit → Bool
should_send_padding four_fifths now c =
    if not c.padding_enabled || not (is_open c.state)
    then false
    else if c.padding_interval == 0
    then false
    else if ltb (now - c.last_padding_time) c.padding_interval
    then false
    else not (ltb (now - c.last_activity_time) (four_fifths c.padding_interval))

-- The digest that a direction selects.
abbrev pub digest_for : Direction → Circuit → Option (List ℕ)
digest_for direction_forward c = c.forward_digest
digest_for direction_backward c = c.backward_digest

set_digest : Direction → List ℕ → Circuit → Circuit
set_digest direction_forward d c = record c { forward_digest = some d }
set_digest direction_backward d c = record c { backward_digest = some d }

unfoldable pub update_digest : Direction → List ℕ → Circuit → Result DigestError Circuit
unfolding set_digest
update_digest direction cell_data c = do
  refuse_if (ltb (length cell_data) 11) data_too_short
  elim (digest_for direction c) [
    | none ↦ err digest_not_initialized
    | some d ↦ ok (set_digest direction (d ++ zero_digest cell_data) c)
  ]

module _ (sha1 : List ℕ → List ℕ) where
  -- The bytes of the cell are not looked at; `received` is the array of its digest.
  unfoldable pub verify_digest :
      Direction → List ℕ → List ℕ → Circuit → Result DigestError (Unit {0})
  verify_digest direction cell_data received c = elim (digest_for direction c) [
    | none ↦ err digest_not_initialized
    | some d ↦ refuse_if (not (bytes_eq (digest_prefix sha1 d) received)) digest_mismatch
  ]

-- Reset of a nil hash would panic; `new_circuit` sets both.
unfoldable pub reset_digests : Circuit → Circuit
reset_digests c = record c { forward_digest = some []; backward_digest = some [] }

unfoldable pub get_replay_stats : Circuit → Stats
unfolding stats
get_replay_stats c = elim c.replay_protection [
  | none ↦ record {
    forward_sequence = 0;
    backward_sequence = 0;
    forward_window_size = 0;
    backward_window_size = 0;
    forward_digests = 0;
    backward_digests = 0;
    replay_attempts_forward = 0;
    replay_attempts_backward = 0;
    out_of_order_forward = 0;
    out_of_order_backward = 0;
  }
  | some r ↦ stats r
]

unfoldable pub get_replay_attempts : Circuit → ℕ
get_replay_attempts c = elim c.replay_protection [ none ↦ 0 | some r ↦ total_replay_attempts r ]

-- SHA-256 is an argument.
unfoldable pub validate_cell_for_replay :
    (List ℕ → List ℕ) → ReplayDirection → List ℕ → Circuit → Circuit × Option ReplayError
validate_cell_for_replay sha256 direction cell_data c = elim c.replay_protection [
  | none ↦ (c, none)
  | some r ↦
      let (r', e) = validate_and_track_auto sha256 direction cell_data r in
      (record c { replay_protection = some r' }, e)
]

unfoldable pub reset_replay_protection : Circuit → Circuit
reset_replay_protection c = elim c.replay_protection [
  | none ↦ c
  | some r ↦ record c { replay_protection = some (reset r) }
]
