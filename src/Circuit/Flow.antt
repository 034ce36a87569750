-- ===== src/Circuit/Flow.antt =====
-- pkg/circuit/circuit.go: the windows of a circuit, and the relay cells it sends and is delivered.
-- The hash functions, the time, and whether the connection's SendCell returns nil are arguments.
pub mod Windows
pub mod Delivering
pub mod Sending
pub mod Accounting
pub mod Prompt
pub mod Late
pub mod EndToEnd
pub mod ExitReads
mod Tests
use go_tor.Prelude.{
  ℕ, ◌+◌, ◌-◌, ◌*◌, Bool, true, false, not, List, [], ◌∷◌, ◌++◌, Option, none, some, Result, ok,
  err, ltb, leb, ◌==◌, if◌then◌else◌, length, refuse_if, ◌>>=◌, ◌>>◌,
}
use go_tor.Cell.Codec.{Cell, cmd_relay}
use go_tor.Cell.Relay.{
  RelayCell, RelayError, new_relay_cell, relay_data, relay_sendme, encode_relay, decode_relay_cell,
}
use go_tor.Cell.Replay.{ReplayProtection, ReplayError, replay_backward, validate_and_track_auto}
use go_tor.Circuit.Crypto.{
  Hop, DigestError, stamp_exit, encrypt_forward, decrypt_backward, verify_relay_cell_digest,
}
use go_tor.Circuit.Core.{
  Circuit, is_open, Connection, no_connection, no_sender, sender, record_activity,
}

pub data FlowError : Type 0 where
  package_window_exhausted deliver_window_exhausted : FlowError

unfoldable pub decrement_package_window : Circuit → Result FlowError Circuit
decrement_package_window c = do
  refuse_if (leb c.package_window 0) package_window_exhausted
  ok (record c { package_window = c.package_window - 1 })

unfoldable pub increment_package_window : Circuit → Circuit
increment_package_window c = record c { package_window = c.package_window + 100 }

unfoldable pub decrement_deliver_window : Circuit → Result FlowError Circuit
decrement_deliver_window c = do
  refuse_if (leb c.deliver_window 0) deliver_window_exhausted
  ok (record c { deliver_window = c.deliver_window - 1; sendme_received = c.sendme_received + 1 })

unfoldable pub should_send_circuit_sendme : Circuit → Bool
should_send_circuit_sendme c = leb 100 c.sendme_received

pub data SendError : Type 0 where
  flow_control circuit_not_open no_conn encode_failed not_supported send_failed : SendError

-- The circuit afterwards, the cell that SendCell was called with, and the error.
pub record Sent : Type 0 where
  pub circuit : Circuit
  pub wire : Option Cell
  pub error : Option SendError

abbrev pub refused : Circuit → SendError → Sent
refused c e = record { circuit = c; wire = none; error = some e }

pub data DeliverError : Type 0 where
  circuit_id_mismatch replay digest_failed decode_failed flow channel_full : DeliverError

-- The circuit afterwards, whether a goroutine with sendCircuitSendme was started, and the error; also
-- the relay cell that the flow control let through, which the source does not return.
pub record Delivered : Type 0 where
  pub circuit : Circuit
  pub spawned : Bool
  pub error : Option DeliverError
  pub accepted : Option RelayCell

abbrev pub dropped : Circuit → Option DeliverError → Delivered
dropped c e = record { circuit = c; spawned = false; error = e; accepted = none }

abbrev pub channel_capacity : ℕ
channel_capacity = 32

-- A channel that stays full for 100 milliseconds refuses the cell; a receive that makes room in that
-- time stands before the delivery in the sequence of steps.
unfoldable pub enqueue : ℕ → Bool → RelayCell → Circuit → Delivered
unfolding record_activity
enqueue now spawned rc c =
    let c' = record_activity now c in
    if ltb (length c.relay_receive_chan) channel_capacity
    then record {
      circuit = record c' { relay_receive_chan = c.relay_receive_chan ++ (rc ∷ []) };
      spawned = spawned;
      error = none;
      accepted = some rc;
    }
    else record { circuit = c'; spawned = spawned; error = some channel_full; accepted = some rc }

-- `DeliverRelayCell` from the flow control on.
unfoldable pub accept_relay_cell : ℕ → RelayCell → Circuit → Delivered
unfolding enqueue
accept_relay_cell now rc c =
    if rc.command == relay_data
    then elim (decrement_deliver_window c) [
      | err _ ↦ dropped c (some flow)
      | ok c' ↦ enqueue now (should_send_circuit_sendme c') rc c'
    ]
    else if rc.command == relay_sendme
    then if rc.stream_id == 0
      then record (dropped (increment_package_window c) none) { accepted = some rc }
      else enqueue now false rc c
    else enqueue now false rc c

-- `ReceiveRelayCell`: `none` is a call that waits until its context is done.
unfoldable pub receive_relay_cell : Circuit → Circuit × Option RelayCell
receive_relay_cell c = elim c.relay_receive_chan [
  | [] ↦ (c, none)
  | rc ∷ rcs ↦ (record c { relay_receive_chan = rcs }, some rc)
]

-- The results of `DecodeRelayCell` and of `verifyRelayCellDigest`, and what follows them.
unfoldable pub decoded : ℕ → Circuit → Result RelayError RelayCell → Delivered
decoded now c (err _) = dropped c (some decode_failed)
decoded now c (ok rc) = accept_relay_cell now rc c

unfoldable pub verified :
    ℕ → List ℕ → Circuit → Result DigestError (List Hop × Option ℕ) → Delivered
unfolding decoded
verified now p c (err _) = dropped c (some digest_failed)
verified now p c (ok (hops, none)) = dropped (record c { hops = hops }) none
verified now p c (ok (hops, some _)) = decoded now (record c { hops = hops }) (decode_relay_cell p)

module _ (sha1 : List ℕ → List ℕ) where
  -- `SendRelayCell` from the digest on.
  unfoldable pub seal_and_send : ℕ → Bool → List ℕ → Circuit → Sent
  unfolding record_activity
  seal_and_send now accepts payload c =
      let (stamped, p) = stamp_exit sha1 payload c.hops in
      let (advanced, q) = encrypt_forward stamped p in
      let c' = record c { hops = advanced } in
      let link : Cell = record { circ_id = c.id; command = cmd_relay; payload = q } in
      elim c.conn [
        | sender ↦
            if accepts
            then record { circuit = record_activity now c'; wire = some link; error = none }
            else record { circuit = c'; wire = some link; error = some send_failed }
        | _ ↦ refused c' not_supported
      ]

  -- The result of `Encode`, and what follows it.
  unfoldable pub encoded : ℕ → Bool → Circuit → Result RelayError (List ℕ) → Sent
  encoded now accepts c (err _) = refused c encode_failed
  encoded now accepts c (ok payload) = seal_and_send now accepts payload c

  -- The test on the connection, and what follows it.
  unfoldable pub connected : ℕ → Bool → RelayCell → Circuit → Connection → Sent
  unfolding encoded
  connected now accepts rc c no_connection = refused c no_conn
  connected now accepts rc c _ = encoded now accepts c (encode_relay rc)

  -- `SendRelayCell` below the flow control.
  unfoldable pub transmit : ℕ → Bool → RelayCell → Circuit → Sent
  unfolding connected
  transmit now accepts rc c =
      if not (is_open c.state)
      then refused c circuit_not_open
      else connected now accepts rc c c.conn

  unfoldable pub send_relay_cell : ℕ → Bool → RelayCell → Circuit → Sent
  send_relay_cell now accepts rc c =
      if rc.command == relay_data
      then elim (decrement_package_window c) [
        | err _ ↦ refused c flow_control
        | ok c' ↦ transmit now accepts rc c'
      ]
      else transmit now accepts rc c

  unfoldable pub send_circuit_sendme : ℕ → Bool → Circuit → Sent
  send_circuit_sendme now accepts c =
      send_relay_cell now accepts (new_relay_cell 0 relay_sendme []) (record c {
        sendme_received = 0;
        sendme_sent = c.sendme_sent + 1;
        deliver_window = c.deliver_window + 100;
      })

  -- `DeliverRelayCell` from the digest on, with the decrypted payload.
  unfoldable pub recognize : ℕ → List ℕ → Circuit → Delivered
  unfolding verified
  recognize now p c = verified now p c (verify_relay_cell_digest sha1 p c.hops)

  module _ (sha256 : List ℕ → List ℕ) where
    -- The verdict of the replay protection, and what follows it.
    unfoldable pub validated :
        ℕ → List ℕ → Circuit → ReplayProtection × Option ReplayError → Delivered
    validated now p c (r, some _) = dropped (record c { replay_protection = some r }) (some replay)
    validated now p c (r, none) = recognize now p (record c { replay_protection = some r })

    -- The replay protection may be nil.
    unfoldable pub guarded : ℕ → List ℕ → Circuit → Option ReplayProtection → Delivered
    unfolding validated
    guarded now p c none = recognize now p c
    guarded now p c (some r) =
        validated now p c (validate_and_track_auto sha256 replay_backward p r)

    unfoldable pub deliver_relay_cell : ℕ → Cell → Circuit → Delivered
    unfolding guarded
    deliver_relay_cell now cell_data c =
        if not (cell_data.circ_id == c.id)
        then dropped c (some circuit_id_mismatch)
        else let (hops, p) = decrypt_backward c.hops cell_data.payload in
          guarded now p (record c { hops = hops }) c.replay_protection
