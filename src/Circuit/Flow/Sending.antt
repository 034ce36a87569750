-- ===== src/Circuit/Flow/Sending.antt =====
-- What sending a relay cell does to the windows of a circuit.
use go_tor.Prelude.{
  ℕ, ◌-◌, ◌<◌, ◌≡◌, ◌⊎◌, inl, inr, refl, sym, subst, Bool, true, false, Bool-cases, List, [], none,
  some, Result, ok, err, leb, ◌==◌, arith,
}
use go_tor.Cell.Relay.{
  RelayCell, RelayError, relay_data, relay_sendme, encode_relay, new_relay_cell,
}
use go_tor.Circuit.Core.{Circuit, Connection, no_connection, no_sender, sender, record_activity}
use go_tor.Circuit.Flow.{
  Sent, decrement_package_window, seal_and_send, transmit, send_relay_cell, send_circuit_sendme,
  flow_control, refused, encoded, connected,
}
use go_tor.Circuit.Flow.Windows.{Windows, windows, data_out, sendme_out}

-- What a send does: other cells move nothing; a DATA cell is refused with nothing sent while the
-- package window is closed, and takes one from it otherwise, whatever becomes of the cell.
abbrev pub SendMoves : Windows → RelayCell → Sent → Type 0
SendMoves w rc s =
    (((rc.command == relay_data) ≡ false) × (windows s.circuit ≡ w))
    ⊎ (((rc.command == relay_data) ≡ true)
        × (w.package_left ≡ 0)
        × (s.wire ≡ none)
        × (s.error ≡ some flow_control)
        × (windows s.circuit ≡ w))
    ⊎ (((rc.command == relay_data) ≡ true)
        × (0 < w.package_left)
        × (windows s.circuit ≡ data_out w))

module _ (sha1 : List ℕ → List ℕ) where
  seal_keeps :
      (now : ℕ) (accepts : Bool) (payload : List ℕ) (c : Circuit)
      → windows (seal_and_send sha1 now accepts payload c).circuit ≡ windows c
  unfolding seal_and_send record_activity
  seal_keeps now accepts payload c = ground arith

  encoded_keeps :
      (now : ℕ) (accepts : Bool) (c : Circuit) (r : Result RelayError (List ℕ))
      → windows (encoded sha1 now accepts c r).circuit ≡ windows c
  unfolding encoded
  encoded_keeps now accepts c (err _) = refl
  encoded_keeps now accepts c (ok payload) = seal_keeps now accepts payload c

  connected_keeps :
      (now : ℕ) (accepts : Bool) (rc : RelayCell) (c : Circuit) (conn : Connection)
      → windows (connected sha1 now accepts rc c conn).circuit ≡ windows c
  unfolding connected
  connected_keeps now accepts rc c no_connection = refl
  connected_keeps now accepts rc c no_sender = encoded_keeps now accepts c (encode_relay rc)
  connected_keeps now accepts rc c sender = encoded_keeps now accepts c (encode_relay rc)

  pub transmit_keeps :
      (now : ℕ) (accepts : Bool) (rc : RelayCell) (c : Circuit)
      → windows (transmit sha1 now accepts rc c).circuit ≡ windows c
  unfolding transmit
  transmit_keeps now accepts rc c = ground (arith, connected_keeps now accepts rc c c.conn)

  pub send_other :
      (now : ℕ) (accepts : Bool) (rc : RelayCell) (c : Circuit)
      → (rc.command == relay_data) ≡ false
      → send_relay_cell sha1 now accepts rc c ≡ transmit sha1 now accepts rc c
  unfolding send_relay_cell
  send_other now accepts rc c d = rw d refl

  send_data_closed :
      (now : ℕ) (accepts : Bool) (rc : RelayCell) (c : Circuit)
      → (rc.command == relay_data) ≡ true
      → leb c.package_window 0 ≡ true
      → send_relay_cell sha1 now accepts rc c ≡ refused c flow_control
  unfolding send_relay_cell decrement_package_window
  send_data_closed now accepts rc c d w = rw (d, w) refl

  pub send_data_open :
      (now : ℕ) (accepts : Bool) (rc : RelayCell) (c : Circuit)
      → (rc.command == relay_data) ≡ true
      → leb c.package_window 0 ≡ false
      → (send_relay_cell sha1 now accepts rc c
          ≡ transmit sha1 now accepts rc (record c { package_window = c.package_window - 1 }))
  unfolding send_relay_cell decrement_package_window
  send_data_open now accepts rc c d w = rw (d, w) refl

  -- A cell that is not DATA moves no window. A DATA cell is refused, with nothing sent, while the
  -- package window is zero; otherwise the window goes down by one, also when the send then fails
  -- because the circuit is not open, has no connection, or the cell cannot be encoded or sent.
  pub send-SendMoves :
      (now : ℕ) (accepts : Bool) (rc : RelayCell) (c : Circuit)
      → SendMoves (windows c) rc (send_relay_cell sha1 now accepts rc c)
  send-SendMoves now accepts rc c = elim (Bool-cases (rc.command == relay_data)) [
    | inr d ↦
        subst (SendMoves (windows c) rc) (sym (send_other now accepts rc c d))
          (inl (d, transmit_keeps now accepts rc c))
    | inl d ↦ elim (Bool-cases (leb c.package_window 0)) [
      | inl w ↦
          subst (SendMoves (windows c) rc) (sym (send_data_closed now accepts rc c d w))
            (inr (inl (d, ground arith, refl, refl, refl)))
      | inr w ↦ subst (SendMoves (windows c) rc) (sym (send_data_open now accepts rc c d w)) (
          inr (
            inr (
              d,
              ground arith,
              transmit_keeps now accepts rc (record c { package_window = c.package_window - 1 }),
            )))
    ]
  ]

  pub sendme_moves :
      (now : ℕ) (accepts : Bool) (c : Circuit)
      → windows (send_circuit_sendme sha1 now accepts c).circuit ≡ sendme_out (windows c)
  unfolding send_circuit_sendme send_relay_cell new_relay_cell
  sendme_moves now accepts c = transmit_keeps now accepts (new_relay_cell 0 relay_sendme []) _
