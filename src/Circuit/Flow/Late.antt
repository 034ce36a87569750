-- ===== src/Circuit/Flow/Late.antt =====
-- The deliver window when SENDMEs run late.
use go_tor.Prelude.{
  ℕ, zero, suc, ◌+◌, ◌*◌, ◌≤◌, ◌<◌, ◌≡◌, refl, ap, ◌∙◌, Bool, true, List, [], ◌∷◌, if◌then◌else◌,
  leb, ◌==◌, length, All, arith,
}
use go_tor.Cell.Relay.{RelayCell, relay_data}
use go_tor.Circuit.Core.{Circuit}
use go_tor.Circuit.Flow.{send_circuit_sendme, accept_relay_cell}
use go_tor.Circuit.Flow.Windows.{windows, data_in, accept_data_open, taken, enqueue_keeps}
use go_tor.Circuit.Flow.Sending.{sendme_moves}

-- Relay cells that the flow control takes one after another, and how many SENDMEs they start.
unfoldable pub accept_all : ℕ → List RelayCell → Circuit → Circuit × ℕ
accept_all now [] c = (c, 0)
accept_all now (rc ∷ rcs) c =
    let d = accept_relay_cell now rc c in
    let (last, n) = accept_all now rcs d.circuit in (last, (if d.spawned then 1 else 0) + n)

module _ (sha1 : List ℕ → List ℕ) where
  unfoldable pub send_sendmes : ℕ → Bool → ℕ → Circuit → Circuit
  send_sendmes now accepts zero c = c
  send_sendmes now accepts (suc n) c =
      send_sendmes now accepts n (send_circuit_sendme sha1 now accepts c).circuit

  send_sendmes_window :
      (now : ℕ) (accepts : Bool) (n : ℕ) (c : Circuit)
      → (send_sendmes now accepts n c).deliver_window ≡ c.deliver_window + 100 * n
  unfolding send_sendmes
  send_sendmes_window now accepts zero c = omega arith
  send_sendmes_window now accepts (suc n) c =
      let r = (send_circuit_sendme sha1 now accepts c).circuit in
      let m = ap (λ u. u.deliver_left) (sendme_moves sha1 now accepts c) in
      let ih = send_sendmes_window now accepts n r in omega arith

accept_late :
    (now : ℕ) (rc : RelayCell) (c : Circuit)
    → (rc.command == relay_data) ≡ true
    → 99 ≤ c.sendme_received
    → 0 < c.deliver_window
    → ((accept_relay_cell now rc c).spawned ≡ true)
      × (windows (accept_relay_cell now rc c).circuit ≡ data_in (windows c))
accept_late now rc c d l p =
    let k = enqueue_keeps now (leb 100 (c.sendme_received + 1)) rc (taken c) in
    rw (accept_data_open now rc c d (ground arith)) (k.2 ∙ ground arith, k.0)

accept_all_late :
    (now : ℕ) (rcs : List RelayCell) (c : Circuit)
    → All (λ rc. (rc.command == relay_data) ≡ true) rcs
    → 99 ≤ c.sendme_received
    → length rcs ≤ c.deliver_window
    → ((accept_all now rcs c).1 ≡ length rcs)
      × ((accept_all now rcs c).0.deliver_window + length rcs ≡ c.deliver_window)
unfolding accept_all
accept_all_late now [] c a l p = (refl, omega arith)
accept_all_late now (rc ∷ rcs) c a l p =
    let one = accept_late now rc c a.0 l (omega arith) in
    let c' = (accept_relay_cell now rc c).circuit in
    let w = ap (λ u. u.deliver_left) one.1 in
    let r = ap (λ u. u.received) one.1 in
    let ih = accept_all_late now rcs c' a.1 (omega arith) (omega arith) in
    let i = ih.0 in let j = ih.1 in (rw one.0 (omega arith), omega arith)

-- DATA cells that the flow control takes when 99 have already come since the last SENDME, before any
-- SENDME they start has run, start one SENDME each; once those have run, the deliver window has grown
-- by 99 for every such cell, although a SENDME is due only for every hundredth.
pub late_sendmes_inflate :
    (sha1 : List ℕ → List ℕ) (now : ℕ) (accepts : Bool) (rcs : List RelayCell) (c : Circuit)
    → All (λ rc. (rc.command == relay_data) ≡ true) rcs
    → 99 ≤ c.sendme_received
    → length rcs ≤ c.deliver_window
    → ((send_sendmes sha1 now accepts
          (accept_all now rcs c).1
          (accept_all now rcs c).0).deliver_window
        ≡ c.deliver_window + 99 * length rcs)
late_sendmes_inflate sha1 now accepts rcs c a l p =
    let r = accept_all_late now rcs c a l p in
    let i = r.0 in
    let j = r.1 in
    let k =
      send_sendmes_window sha1 now accepts (accept_all now rcs c).1 (accept_all now rcs c).0 in
    omega arith
