-- ===== src/Circuit/Flow/Windows.antt =====
-- What the calls do to the windows of a circuit, as an abstract machine of four counters.
use go_tor.Prelude.{
  ℕ, ◌+◌, ◌-◌, ◌<◌, ◌≡◌, ◌⊎◌, inl, inr, refl, sym, subst, ap, ◌∙◌, Bool, true, false, ◌&&◌,
  Bool-cases, Option, none, some, leb, ◌==◌, arith,
}
use go_tor.Cell.Relay.{RelayCell, relay_data, relay_sendme}
use go_tor.Circuit.Core.{Circuit, record_activity}
use go_tor.Circuit.Flow.{
  Delivered, increment_package_window, decrement_deliver_window, should_send_circuit_sendme,
  enqueue, accept_relay_cell, flow, dropped,
}

pub record Windows : Type 0 where
  pub package_left : ℕ
  pub deliver_left : ℕ
  pub received : ℕ
  pub sent : ℕ

abbrev pub windows : Circuit → Windows
windows c = record {
  package_left = c.package_window;
  deliver_left = c.deliver_window;
  received = c.sendme_received;
  sent = c.sendme_sent;
}

abbrev pub is_data : Option RelayCell → Bool
is_data none = false
is_data (some rc) = rc.command == relay_data

abbrev pub is_circuit_sendme : Option RelayCell → Bool
is_circuit_sendme none = false
is_circuit_sendme (some rc) = rc.command == relay_sendme && rc.stream_id == 0

-- The four moves of the machine.
abbrev pub data_out : Windows → Windows
data_out w = record w { package_left = w.package_left - 1 }

abbrev pub sendme_in : Windows → Windows
sendme_in w = record w { package_left = w.package_left + 100 }

abbrev pub data_in : Windows → Windows
data_in w = record w { deliver_left = w.deliver_left - 1; received = w.received + 1 }

abbrev pub sendme_out : Windows → Windows
sendme_out w = record w { deliver_left = w.deliver_left + 100; received = 0; sent = w.sent + 1 }

-- What a delivery does: it lets no cell through and moves nothing, or takes a DATA cell in while the
-- deliver window is open, or a circuit-level SENDME, or another cell that moves nothing.
abbrev pub DeliveryMoves : Windows → Delivered → Type 0
DeliveryMoves w d =
    ((d.accepted ≡ none) × (d.spawned ≡ false) × (windows d.circuit ≡ w))
    ⊎ ((is_data d.accepted ≡ true)
        × (0 < w.deliver_left)
        × (d.spawned ≡ leb 100 (w.received + 1))
        × (windows d.circuit ≡ data_in w))
    ⊎ ((is_circuit_sendme d.accepted ≡ true)
        × (is_data d.accepted ≡ false)
        × (d.spawned ≡ false)
        × (windows d.circuit ≡ sendme_in w))
    ⊎ ((is_circuit_sendme d.accepted ≡ false)
        × (is_data d.accepted ≡ false)
        × (d.spawned ≡ false)
        × (windows d.circuit ≡ w))

pub enqueue_keeps :
    (now : ℕ) (spawned : Bool) (rc : RelayCell) (c : Circuit)
    → (windows (enqueue now spawned rc c).circuit ≡ windows c)
      × ((enqueue now spawned rc c).accepted ≡ some rc)
      × ((enqueue now spawned rc c).spawned ≡ spawned)
unfolding enqueue record_activity
enqueue_keeps now spawned rc c = ground arith

-- The circuit after a DATA cell was taken in.
abbrev pub taken : Circuit → Circuit
taken c = record c {
  deliver_window = c.deliver_window - 1;
  sendme_received = c.sendme_received + 1;
}

-- `accept_relay_cell` on each of its branches.
pub accept_data_closed :
    (now : ℕ) (rc : RelayCell) (c : Circuit)
    → (rc.command == relay_data) ≡ true
    → leb c.deliver_window 0 ≡ true
    → accept_relay_cell now rc c ≡ dropped c (some flow)
unfolding accept_relay_cell decrement_deliver_window
accept_data_closed now rc c d w = rw (d, w) refl

pub accept_data_open :
    (now : ℕ) (rc : RelayCell) (c : Circuit)
    → (rc.command == relay_data) ≡ true
    → leb c.deliver_window 0 ≡ false
    → accept_relay_cell now rc c ≡ enqueue now (leb 100 (c.sendme_received + 1)) rc (taken c)
unfolding accept_relay_cell decrement_deliver_window should_send_circuit_sendme
accept_data_open now rc c d w = rw (d, w) refl

pub accept_sendme :
    (now : ℕ) (rc : RelayCell) (c : Circuit)
    → (rc.command == relay_data) ≡ false
    → (rc.command == relay_sendme) ≡ true
    → (rc.stream_id == 0) ≡ true
    → (accept_relay_cell now rc c
        ≡ record (dropped (increment_package_window c) none) { accepted = some rc })
unfolding accept_relay_cell
accept_sendme now rc c d k z = rw (d, k, z) refl

pub accept_other :
    (now : ℕ) (rc : RelayCell) (c : Circuit)
    → (rc.command == relay_data) ≡ false
    → is_circuit_sendme (some rc) ≡ false
    → accept_relay_cell now rc c ≡ enqueue now false rc c
unfolding accept_relay_cell
accept_other now rc c d k = elim (Bool-cases (rc.command == relay_sendme)) [
  | inl s ↦ elim (Bool-cases (rc.stream_id == 0)) [
    | inl z ↦ absurd (let e : is_circuit_sendme (some rc) ≡ true = rw (s, z) refl in cc)
    | inr z ↦ rw (d, s, z) refl
  ]
  | inr s ↦ rw (d, s) refl
]

pub sendme_windows : (c : Circuit) → windows (increment_package_window c) ≡ sendme_in (windows c)
unfolding increment_package_window
sendme_windows c = refl

pub both_true : (a b : Bool) → (a && b) ≡ true → (a ≡ true) × (b ≡ true)
both_true true true h = (refl, refl)
both_true true false h = absurd (cc)
both_true false b h = absurd (cc)

pub accept-DeliveryMoves :
    (now : ℕ) (rc : RelayCell) (c : Circuit)
    → DeliveryMoves (windows c) (accept_relay_cell now rc c)
accept-DeliveryMoves now rc c = elim (Bool-cases (rc.command == relay_data)) [
  | inl d ↦ elim (Bool-cases (leb c.deliver_window 0)) [
    | inl w ↦
        subst (DeliveryMoves (windows c)) (sym (accept_data_closed now rc c d w))
          (inl (refl, refl, refl))
    | inr w ↦
        let s = leb 100 (c.sendme_received + 1) in
        let k = enqueue_keeps now s rc (taken c) in
        subst (DeliveryMoves (windows c)) (sym (accept_data_open now rc c d w))
          (inr (inl (ap is_data k.1 ∙ d, ground arith, k.2, k.0)))
  ]
  | inr d ↦ elim (Bool-cases (is_circuit_sendme (some rc))) [
    | inl k ↦
        let b = both_true (rc.command == relay_sendme) (rc.stream_id == 0) k in
        subst (DeliveryMoves (windows c)) (sym (accept_sendme now rc c d b.0 b.1))
          (inr (inr (inl (k, d, refl, sendme_windows c))))
    | inr k ↦
        let e = enqueue_keeps now false rc c in
        subst (DeliveryMoves (windows c)) (sym (accept_other now rc c d k))
          (inr (inr (inr (ap is_circuit_sendme e.1 ∙ k, ap is_data e.1 ∙ d, e.2, e.0))))
  ]
]
