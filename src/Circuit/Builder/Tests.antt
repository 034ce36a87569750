-- ===== src/Circuit/Builder/Tests.antt =====
-- A run of the builder, and the witnesses.
use Prim.Native.String.{String}
use go_tor.Prelude.{
  ℕ, ◌≡◌, ◌≢◌, refl, Bool, true, List, [], ◌∷◌, none, some, err, length, get_elem?,
}
use go_tor.Security.Int.{pos}
use go_tor.Directory.{Relay}
use go_tor.Path.{Path3}
use go_tor.Cell.Relay.{RelayCell}
use go_tor.Circuit.Core.{
  Circuit, new_circuit, set_state, is_building, state_open, state_closed, state_failed,
}
use go_tor.Circuit.Flow.{send_relay_cell}
use go_tor.Circuit.Builder.{finish_build, add_hop_failed}
use go_tor.Circuit.Builder.Built.{built_cannot_send}

abbrev a_relay : ℕ → Relay
a_relay n = record {
  nickname = [];
  fingerprint = n ∷ [];
  address = [];
  or_port = pos 9001;
  dir_port = pos 0;
  flags = [];
  identity_key = [];
  ntor_onion_key = [];
}

abbrev a_path : Path3
a_path = record { guard = a_relay 1; middle = a_relay 2; exit = a_relay 3 }

abbrev text : Relay → String
text r = "relay"

abbrev heap : List Circuit
heap = new_circuit 0 7 ∷ []

abbrev closed_heap : List Circuit
closed_heap = set_state state_closed (new_circuit 0 7) ∷ []

-- A circuit that was closed while the connection was made becomes a failed one.
closed_run :
    finish_build text text true a_path 0 closed_heap
    ≡ (set_state state_failed (new_circuit 0 7) ∷ [], err add_hop_failed)
unfolding finish_build set_state go_tor.Circuit.Core.add_hop
closed_run = refl

built_cannot_send_example :
    (c : Circuit) × (get_elem? (finish_build text text true a_path 0 heap).0 0 ≡ some c)
    × (c.state ≡ state_open)
    × (length c.hops ≡ 3)
    × ((sha1 : List ℕ → List ℕ) (now : ℕ) (accepts : Bool) (rc : RelayCell)
        → ((send_relay_cell sha1 now accepts rc c).wire ≡ none)
          × ((send_relay_cell sha1 now accepts rc c).error ≢ none))
built_cannot_send_example = built_cannot_send text text a_path 0 7 0 heap refl
