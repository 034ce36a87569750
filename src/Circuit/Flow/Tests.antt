-- ===== src/Circuit/Flow/Tests.antt =====
-- The flow-control theorems at concrete circuits, with the identity for the hash functions.
use go_tor.Prelude.{ℕ, ◌*◌, ◌≡◌, refl, true, false, List, [], ◌∷◌, All, replicate, arith}
use go_tor.Cell.Codec.{Cell}
use go_tor.Cell.Relay.{RelayCell, new_relay_cell}
use go_tor.Circuit.Core.{Circuit, state_open, sender, new_circuit, set_state, set_connection}
use go_tor.Cell.Relay.RoundTrip.{IsRelayCell, new_relay_cell-IsRelayCell}
use go_tor.Circuit.Crypto.{new_hop, set_crypto_state}
use go_tor.Circuit.Flow.ExitReads.{ExitReads, send-ExitReads}
use go_tor.Prelude.{inr, ◌%◌, ◌≤◌, length}
use go_tor.Circuit.Flow.{send_relay_cell}
use go_tor.Circuit.Flow.Windows.{windows}
use go_tor.Circuit.Flow.Delivering.{is_flow}
use go_tor.Circuit.Flow.Accounting.{
  Event, delivery, sending, goroutine, receiving, run, fresh, Balanced, windows-Balanced,
}
use go_tor.Circuit.Flow.Prompt.{prompt_run, prompt_never_exhausted, InStep}

abbrev hash : List ℕ → List ℕ
hash d = d

abbrev opened : Circuit
unfolding new_circuit set_state set_connection
opened = set_connection sender (set_state state_open (new_circuit 0 1))

abbrev data_cell : RelayCell
unfolding new_relay_cell
data_cell = new_relay_cell 4 2 (7 ∷ 8 ∷ [])

abbrev link : Cell
link = record { circ_id = 1; command = 3; payload = 2 ∷ replicate 508 0 }

abbrev events : List Event
events =
    sending 1 true data_cell
    ∷ delivery 2 link
    ∷ sending 3 false data_cell
    ∷ goroutine 4 true
    ∷ receiving
    ∷ []

windows-Balanced_example : Balanced (run hash hash events (fresh opened))
unfolding opened new_circuit set_state set_connection
windows-Balanced_example = windows-Balanced hash hash events 0 1 opened refl

prompt_never_exhausted_example :
    All
      (λ e. is_flow e ≡ false)
      (prompt_run hash hash ((1, true, link) ∷ (2, false, link) ∷ []) opened).1
    × InStep (windows (prompt_run hash hash ((1, true, link) ∷ (2, false, link) ∷ []) opened).0)
unfolding opened new_circuit set_state set_connection
prompt_never_exhausted_example =
    prompt_never_exhausted hash hash ((1, true, link) ∷ (2, false, link) ∷ []) opened (omega arith)
      (omega arith)

-- A circuit of two hops, of which the exit has a digest.
abbrev two_hops : Circuit
unfolding opened new_circuit set_state set_connection new_hop set_crypto_state
two_hops = record opened {
  hops =
      new_hop "A" "a:9001" true false
      ∷ set_crypto_state (record { key = λ i. (i * 7) % 256; offset = 3 })
          (record { key = λ i. 5; offset = 0 }) (1 ∷ []) [] (new_hop "B" "b:9001" false true)
      ∷ [];
}

abbrev sum : List ℕ → List ℕ
sum d = replicate 20 (length d % 256)

long_sum : (d : List ℕ) → 4 ≤ length (sum d)
long_sum d = omega arith

data_cell-IsRelayCell : IsRelayCell data_cell
unfolding data_cell new_relay_cell
data_cell-IsRelayCell =
    new_relay_cell-IsRelayCell 4 2 (7 ∷ 8 ∷ []) (omega arith) (omega arith) (omega arith)

send-ExitReads_example :
    ExitReads sum two_hops data_cell (send_relay_cell sum 9 true data_cell two_hops)
unfolding two_hops opened new_circuit set_state set_connection data_cell new_relay_cell
send-ExitReads_example =
    send-ExitReads sum 9 data_cell two_hops refl refl data_cell-IsRelayCell (omega arith)
      (inr (omega arith)) long_sum
