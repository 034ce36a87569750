-- ===== src/Circuit/Flow/Accounting.antt =====
-- The windows over any interleaving of the calls on a circuit, with the SENDMEs that
-- `DeliverRelayCell` starts as goroutines running whenever the scheduler lets them.
use go_tor.Prelude.{
  ℕ, zero, suc, ◌+◌, ◌*◌, ◌≤◌, ◌≡◌, inl, inr, ap, ap₂, Bool, true, false, List, [], ◌∷◌, Option,
  none, some, if◌then◌else◌, ◌&&◌, ◌==◌, arith,
}
use go_tor.Cell.Codec.{Cell}
use go_tor.Cell.Relay.{RelayCell, relay_data}
use go_tor.Circuit.Core.{Circuit, new_circuit}
use go_tor.Circuit.Flow.{
  Sent, Delivered, send_relay_cell, send_circuit_sendme, deliver_relay_cell, receive_relay_cell,
}
use go_tor.Circuit.Flow.Windows.{Windows, windows, is_data, is_circuit_sendme, DeliveryMoves}
use go_tor.Circuit.Flow.Delivering.{deliver-DeliveryMoves}
use go_tor.Circuit.Flow.Sending.{SendMoves, send-SendMoves, sendme_moves}

pub data Event : Type 0 where
  delivery : ℕ → Cell → Event  -- the time, the link cell
  sending : ℕ → Bool → RelayCell → Event  -- the time, does SendCell succeed, the cell
  goroutine : ℕ → Bool → Event  -- the time, does SendCell succeed
  receiving : Event

-- A circuit, the goroutines that have not run, and how many cells have passed: DATA cells let in,
-- DATA cells put on the wire, circuit-level SENDMEs let in.
pub record System : Type 0 where
  pub circuit : Circuit
  pub pending : ℕ
  pub data_received : ℕ
  pub data_sent : ℕ
  pub sendmes_received : ℕ

abbrev pub one_if : Bool → ℕ
one_if b = if b then 1 else 0

abbrev pub is_some : Option Cell → Bool
is_some none = false
is_some (some _) = true

unfoldable pub delivered : Delivered → System → System
delivered d s = record {
  circuit = d.circuit;
  pending = s.pending + one_if d.spawned;
  data_received = s.data_received + one_if (is_data d.accepted);
  data_sent = s.data_sent;
  sendmes_received = s.sendmes_received + one_if (is_circuit_sendme d.accepted);
}

unfoldable pub sent_out : RelayCell → Sent → System → System
sent_out rc r s = record s {
  circuit = r.circuit;
  data_sent = s.data_sent + one_if ((rc.command == relay_data) && is_some r.wire);
}

abbrev pub fresh : Circuit → System
fresh c = record {
  circuit = c;
  pending = 0;
  data_received = 0;
  data_sent = 0;
  sendmes_received = 0;
}

-- The books: the windows against the cells that have passed.
pub record Balanced (s : System) : Type 0 where
  pub package_account : s.circuit.package_window + s.data_sent ≤ 1000 + 100 * s.sendmes_received
  pub deliver_account :
      s.circuit.deliver_window + s.data_received ≡ 1000 + 100 * s.circuit.sendme_sent

-- What a move to the windows `w` and the counts make of the books.
rebalance :
    (s t : System) (w : Windows)
    → windows t.circuit ≡ w
    → Balanced s
    → (w.package_left + t.data_sent) + 100 * s.sendmes_received
      ≤ (s.circuit.package_window + s.data_sent) + 100 * t.sendmes_received
    → ((w.deliver_left + t.data_received) + 100 * s.circuit.sendme_sent
        ≡ (s.circuit.deliver_window + s.data_received) + 100 * w.sent)
    → Balanced t
rebalance s t w e b p d =
    let bp = b.package_account in
    let bd = b.deliver_account in
    let ep = ap (λ u. u.package_left) e in
    let ed = ap (λ u. u.deliver_left) e in
    let es = ap (λ u. u.sent) e in
    record { package_account = omega arith; deliver_account = omega arith }

delivered-Balanced :
    (d : Delivered) (s : System)
    → Balanced s
    → DeliveryMoves (windows s.circuit) d
    → Balanced (delivered d s)
unfolding delivered
delivered-Balanced d s b (inl (a, _, w)) =
    let i = ap (λ o. one_if (is_data o)) a in rebalance s _ _ w b (omega arith) (omega arith)
delivered-Balanced d s b (inr (inl (a, p, _, w))) =
    let i = ap one_if a in rebalance s _ _ w b (omega arith) (omega arith)
delivered-Balanced d s b (inr (inr (inl (a, n, _, w)))) =
    let i = ap one_if n in let j = ap one_if a in rebalance s _ _ w b (omega arith) (omega arith)
delivered-Balanced d s b (inr (inr (inr (a, n, _, w)))) =
    let i = ap one_if n in rebalance s _ _ w b (omega arith) (omega arith)

one_if-le : (b : Bool) → one_if b ≤ 1
one_if-le b = ground arith

sent_out-Balanced :
    (rc : RelayCell) (r : Sent) (s : System)
    → Balanced s
    → SendMoves (windows s.circuit) rc r
    → Balanced (sent_out rc r s)
unfolding sent_out
sent_out-Balanced rc r s b (inl (n, w)) =
    let i = ap (λ t. one_if (t && is_some r.wire)) n in
    rebalance s _ _ w b (omega arith) (omega arith)
sent_out-Balanced rc r s b (inr (inl (d, p, none_, _, w))) =
    let i = ap₂ (λ t o. one_if (t && is_some o)) d none_ in
    rebalance s _ _ w b (omega arith) (omega arith)
sent_out-Balanced rc r s b (inr (inr (d, p, w))) =
    let i = one_if-le ((rc.command == relay_data) && is_some r.wire) in
    rebalance s _ _ w b (omega arith) (omega arith)

module _ (sha1 sha256 : List ℕ → List ℕ) where
  -- A goroutine runs where one is pending.
  unfoldable pub step : Event → System → System
  step (delivery now cd) s = delivered (deliver_relay_cell sha1 sha256 now cd s.circuit) s
  step (sending now accepts rc) s = sent_out rc (send_relay_cell sha1 now accepts rc s.circuit) s
  step (goroutine now accepts) s = elim s.pending [
    | zero ↦ s
    | suc n ↦ record s {
      circuit = (send_circuit_sendme sha1 now accepts s.circuit).circuit;
      pending = n;
    }
  ]
  step receiving s = record s { circuit = (receive_relay_cell s.circuit).0 }

  unfoldable pub run : List Event → System → System
  run [] s = s
  run (e ∷ es) s = run es (step e s)

  goroutine-Balanced :
      (now : ℕ) (accepts : Bool) (n : ℕ) (s : System)
      → Balanced s
      → Balanced (record s {
        circuit = (send_circuit_sendme sha1 now accepts s.circuit).circuit;
        pending = n;
      })
  goroutine-Balanced now accepts n s b =
      rebalance s _ _ (sendme_moves sha1 now accepts s.circuit) b (omega arith) (omega arith)

  receive_keeps : (c : Circuit) → windows (receive_relay_cell c).0 ≡ windows c
  unfolding receive_relay_cell
  receive_keeps c = ground arith

  step-Balanced : (e : Event) (s : System) → Balanced s → Balanced (step e s)
  unfolding step
  step-Balanced (delivery now cd) s b =
      delivered-Balanced _ s b (deliver-DeliveryMoves sha1 sha256 now cd s.circuit)
  step-Balanced (sending now accepts rc) s b =
      sent_out-Balanced rc _ s b (send-SendMoves sha1 now accepts rc s.circuit)
  step-Balanced (goroutine now accepts) s b =
      elim s.pending
        as (λ p. Balanced (elim p [
          | zero ↦ s
          | suc n ↦ record s {
            circuit = (send_circuit_sendme sha1 now accepts s.circuit).circuit;
            pending = n;
          }
        ])) [ zero ↦ b | suc n ↦ goroutine-Balanced now accepts n s b ]
  step-Balanced receiving s b =
      rebalance s _ _ (receive_keeps s.circuit) b (omega arith) (omega arith)

  run-Balanced : (es : List Event) (s : System) → Balanced s → Balanced (run es s)
  unfolding run
  run-Balanced [] s b = b
  run-Balanced (e ∷ es) s b = run-Balanced es (step e s) (step-Balanced e s b)

  -- After any sequence of deliveries, sends, receives and goroutines on a circuit whose windows are
  -- those of a new one: the package
  -- window and the DATA cells handed to the connection are together at most 1000 plus 100 for each
  -- circuit-level SENDME received, and the deliver window and the DATA cells let in are together
  -- exactly 1000 plus 100 for each SENDME sent.
  pub windows-Balanced :
      (es : List Event) (now id : ℕ) (c : Circuit)
      → windows c ≡ windows (new_circuit now id)
      → Balanced (run es (fresh c))
  unfolding new_circuit
  windows-Balanced es now id c w =
      let p = ap (λ u. u.package_left) w in
      let d = ap (λ u. u.deliver_left) w in
      let t = ap (λ u. u.sent) w in
      run-Balanced es (fresh c)
        (record { package_account = omega arith; deliver_account = omega arith })
