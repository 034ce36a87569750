-- ===== src/Circuit/Flow/Delivering.antt =====
-- What every delivery does to the windows, and when the flow control refuses one.
use go_tor.Prelude.{
  ℕ, ◌<◌, ◌≡◌, inl, inr, refl, sym, subst, ap, Bool, true, false, Bool-cases, List, Option, none,
  some, Result, ok, err, ◌==◌, arith,
}
use go_tor.Cell.Codec.{Cell}
use go_tor.Cell.Relay.{RelayCell, RelayError, relay_data, relay_sendme, decode_relay_cell}
use go_tor.Cell.Replay.{ReplayProtection, ReplayError, replay_backward, validate_and_track_auto}
use go_tor.Circuit.Crypto.{Hop, DigestError, decrypt_backward, verify_relay_cell_digest}
use go_tor.Circuit.Core.{Circuit}
use go_tor.Circuit.Flow.{
  Delivered, enqueue, accept_relay_cell, decoded, verified, recognize, validated, guarded,
  circuit_id_mismatch, deliver_relay_cell, flow, dropped,
}
use go_tor.Circuit.Flow.{DeliverError}
use go_tor.Circuit.Flow.Windows.{
  Windows, windows, DeliveryMoves, accept-DeliveryMoves, accept_data_open, accept_sendme,
  accept_other, taken, both_true, is_circuit_sendme,
}

abbrev pub is_flow : Option DeliverError → Bool
is_flow (some flow) = true
is_flow _ = false

-- A predicate holds of every delivery when it holds of the ones dropped before the flow control,
-- and of what the flow control does; the windows are still the first ones then.
module _ (now : ℕ) (w : Windows) (Q : Delivered → Type 0)
    (on_drop : (c : Circuit) (e : Option DeliverError)
      → windows c ≡ w
      → is_flow e ≡ false
      → Q (dropped c e))
    (on_accept : (rc : RelayCell) (c : Circuit) → windows c ≡ w → Q (accept_relay_cell now rc c))
    (sha1 sha256 : List ℕ → List ℕ) where
  decoded_induct :
      (c : Circuit) (r : Result RelayError RelayCell) → windows c ≡ w → Q (decoded now c r)
  unfolding decoded
  decoded_induct c (err _) h = on_drop c _ h refl
  decoded_induct c (ok rc) h = on_accept rc c h

  verified_induct :
      (p : List ℕ) (c : Circuit) (r : Result DigestError (List Hop × Option ℕ))
      → windows c ≡ w
      → Q (verified now p c r)
  unfolding verified
  verified_induct p c (err _) h = on_drop c _ h refl
  verified_induct p c (ok (hops, none)) h = on_drop (record c { hops = hops }) none h refl
  verified_induct p c (ok (hops, some _)) h =
      decoded_induct (record c { hops = hops }) (decode_relay_cell p) h

  recognize_induct : (p : List ℕ) (c : Circuit) → windows c ≡ w → Q (recognize sha1 now p c)
  unfolding recognize
  recognize_induct p c h = verified_induct p c (verify_relay_cell_digest sha1 p c.hops) h

  validated_induct :
      (p : List ℕ) (c : Circuit) (v : ReplayProtection × Option ReplayError)
      → windows c ≡ w
      → Q (validated sha1 sha256 now p c v)
  unfolding validated
  validated_induct p c (r, some _) h = on_drop (record c { replay_protection = some r }) _ h refl
  validated_induct p c (r, none) h = recognize_induct p (record c { replay_protection = some r }) h

  guarded_induct :
      (p : List ℕ) (c : Circuit) (v : Option ReplayProtection)
      → windows c ≡ w
      → Q (guarded sha1 sha256 now p c v)
  unfolding guarded
  guarded_induct p c none h = recognize_induct p c h
  guarded_induct p c (some r) h =
      validated_induct p c (validate_and_track_auto sha256 replay_backward p r) h

  deliver_match :
      (cd : Cell) (c : Circuit)
      → (cd.circ_id == c.id) ≡ true
      → (deliver_relay_cell sha1 sha256 now cd c
          ≡ guarded sha1 sha256 now
              (decrypt_backward c.hops cd.payload).1
              (record c { hops = (decrypt_backward c.hops cd.payload).0 })
              c.replay_protection)
  unfolding deliver_relay_cell
  deliver_match cd c e = rw e refl

  deliver_mismatch :
      (cd : Cell) (c : Circuit)
      → (cd.circ_id == c.id) ≡ false
      → deliver_relay_cell sha1 sha256 now cd c ≡ dropped c (some circuit_id_mismatch)
  unfolding deliver_relay_cell
  deliver_mismatch cd c e = rw e refl

  deliver_induct :
      (cd : Cell) (c : Circuit) → windows c ≡ w → Q (deliver_relay_cell sha1 sha256 now cd c)
  deliver_induct cd c h = elim (Bool-cases (cd.circ_id == c.id)) [
    | inl e ↦ subst Q (sym (deliver_match cd c e)) (
        guarded_induct (decrypt_backward c.hops cd.payload).1
          (record c { hops = (decrypt_backward c.hops cd.payload).0 }) c.replay_protection h)
    | inr e ↦ subst Q (sym (deliver_mismatch cd c e)) (on_drop c _ h refl)
  ]

module _ (sha1 sha256 : List ℕ → List ℕ) where
  pub deliver-DeliveryMoves :
      (now : ℕ) (cd : Cell) (c : Circuit)
      → DeliveryMoves (windows c) (deliver_relay_cell sha1 sha256 now cd c)
  deliver-DeliveryMoves now cd c =
      deliver_induct now (windows c) (DeliveryMoves (windows c)) (λ d e h _. inl (refl, refl, h))
        (λ rc d h.
          subst (λ v. DeliveryMoves v (accept_relay_cell now rc d)) h
            (accept-DeliveryMoves now rc d))
        sha1 sha256 cd c refl

enqueue_flow :
    (now : ℕ) (spawned : Bool) (rc : RelayCell) (c : Circuit)
    → is_flow (enqueue now spawned rc c).error ≡ false
unfolding enqueue
enqueue_flow now spawned rc c = ground arith

accept_flow :
    (now : ℕ) (rc : RelayCell) (c : Circuit)
    → 0 < c.deliver_window
    → is_flow (accept_relay_cell now rc c).error ≡ false
accept_flow now rc c h = elim (Bool-cases (rc.command == relay_data)) [
  | inl d ↦ rw (accept_data_open now rc c d (ground arith)) (enqueue_flow now _ rc (taken c))
  | inr d ↦ elim (Bool-cases (is_circuit_sendme (some rc))) [
    | inl k ↦
        let b = both_true (rc.command == relay_sendme) (rc.stream_id == 0) k in
        rw (accept_sendme now rc c d b.0 b.1) refl
    | inr k ↦ rw (accept_other now rc c d k) (enqueue_flow now false rc c)
  ]
]

-- The flow control refuses no cell while the deliver window is open.
pub deliver_flow :
    (sha1 sha256 : List ℕ → List ℕ) (now : ℕ) (cd : Cell) (c : Circuit)
    → 0 < c.deliver_window
    → is_flow (deliver_relay_cell sha1 sha256 now cd c).error ≡ false
deliver_flow sha1 sha256 now cd c p =
    deliver_induct now (windows c) (λ d. is_flow d.error ≡ false) (λ d e h k. k)
      (λ rc d h. accept_flow now rc d (subst (λ n. 0 < n) (sym (ap (λ u. u.deliver_left) h)) p))
      sha1 sha256 cd c refl
