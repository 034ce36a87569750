-- ===== src/Circuit/Flow/Prompt.antt =====
-- The deliver window when every SENDME runs before the next delivery.
use go_tor.Prelude.{
  ℕ, ◌+◌, ◌<◌, ◌≡◌, ◌⊎◌, inl, inr, refl, sym, subst, ap, Bool, true, false, Bool-cases, List, [],
  ◌∷◌, Option, if◌then◌else◌, leb, All, arith,
}
use go_tor.Cell.Codec.{Cell}
use go_tor.Circuit.Core.{Circuit}
use go_tor.Circuit.Flow.{Delivered, DeliverError, send_circuit_sendme, deliver_relay_cell}
use go_tor.Circuit.Flow.Windows.{Windows, windows, DeliveryMoves, data_in, sendme_out}
use go_tor.Circuit.Flow.Delivering.{deliver-DeliveryMoves, deliver_flow, is_flow}
use go_tor.Circuit.Flow.Sending.{sendme_moves}

-- A delivery, and the SENDME it starts run at once.
unfoldable pub prompt_delivery :
    (List ℕ → List ℕ)
    → (List ℕ → List ℕ)
    → ℕ
    → Bool
    → Cell
    → Circuit
    → Circuit × Option DeliverError
prompt_delivery sha1 sha256 now accepts cd c =
    let d = deliver_relay_cell sha1 sha256 now cd c in
    let c' = (send_circuit_sendme sha1 now accepts d.circuit).circuit in
    (if d.spawned then c' else d.circuit, d.error)

unfoldable pub prompt_run :
    (List ℕ → List ℕ)
    → (List ℕ → List ℕ)
    → List (ℕ × Bool × Cell)
    → Circuit
    → Circuit × List (Option DeliverError)
prompt_run sha1 sha256 [] c = (c, [])
prompt_run sha1 sha256 ((now, accepts, cd) ∷ cds) c =
    let (c', e) = prompt_delivery sha1 sha256 now accepts cd c in
    let (last, es) = prompt_run sha1 sha256 cds c' in (last, e ∷ es)

-- The window and the cells since the last SENDME are 1000 together, and the cells are fewer than 100.
abbrev pub InStep : Windows → Type 0
InStep w = (w.deliver_left + w.received ≡ 1000) × (w.received < 100)

abbrev run_if : Bool → Windows → Windows
run_if true w = sendme_out w
run_if false w = w

stays-InStep :
    (w v : Windows) (s : Bool)
    → InStep w
    → (s ≡ false) × (v.deliver_left ≡ w.deliver_left) × (v.received ≡ w.received)
      ⊎ (s ≡ leb 100 (w.received + 1)) × (v ≡ data_in w)
    → InStep (run_if s v)
stays-InStep w v s i (inl (a, b, c)) =
    subst (λ t. InStep (run_if t v)) (sym a) (omega arith, omega arith)
stays-InStep w v s i (inr (a, b)) =
    subst (λ t. InStep (run_if t v)) (sym a)
      (subst (λ u. InStep (run_if (leb 100 (w.received + 1)) u)) (sym b) (once w i))
  where
    once : (w : Windows) → InStep w → InStep (run_if (leb 100 (w.received + 1)) (data_in w))
    once w i = ground arith

prompt_moves :
    (sha1 sha256 : List ℕ → List ℕ) (now : ℕ) (accepts : Bool) (cd : Cell) (c : Circuit)
    → (windows (prompt_delivery sha1 sha256 now accepts cd c).0
        ≡ run_if
            (deliver_relay_cell sha1 sha256 now cd c).spawned
            (windows (deliver_relay_cell sha1 sha256 now cd c).circuit))
unfolding prompt_delivery
prompt_moves sha1 sha256 now accepts cd c =
    elim (Bool-cases (deliver_relay_cell sha1 sha256 now cd c).spawned) [
      | inl e ↦
          rw e (sendme_moves sha1 now accepts (deliver_relay_cell sha1 sha256 now cd c).circuit)
      | inr e ↦ rw e refl
    ]

moves_step :
    (w : Windows) (d : Delivered)
    → DeliveryMoves w d
    → (d.spawned ≡ false)
        × ((windows d.circuit).deliver_left ≡ w.deliver_left)
        × ((windows d.circuit).received ≡ w.received)
      ⊎ (d.spawned ≡ leb 100 (w.received + 1)) × (windows d.circuit ≡ data_in w)
moves_step w d (inl (a, s, m)) = inl (s, ap (λ u. u.deliver_left) m, ap (λ u. u.received) m)
moves_step w d (inr (inl (a, p, s, m))) = inr (s, m)
moves_step w d (inr (inr (inl (a, n, s, m)))) =
    inl (s, ap (λ u. u.deliver_left) m, ap (λ u. u.received) m)
moves_step w d (inr (inr (inr (a, n, s, m)))) =
    inl (s, ap (λ u. u.deliver_left) m, ap (λ u. u.received) m)

module _ (sha1 sha256 : List ℕ → List ℕ) where
  prompt-InStep :
      (now : ℕ) (accepts : Bool) (cd : Cell) (c : Circuit)
      → InStep (windows c)
      → InStep (windows (prompt_delivery sha1 sha256 now accepts cd c).0)
  prompt-InStep now accepts cd c i =
      let d = deliver_relay_cell sha1 sha256 now cd c in
      subst InStep (sym (prompt_moves sha1 sha256 now accepts cd c)) (
        stays-InStep (windows c) (windows d.circuit) d.spawned i
          (moves_step (windows c) d (deliver-DeliveryMoves sha1 sha256 now cd c)))

  prompt_not_flow :
      (now : ℕ) (accepts : Bool) (cd : Cell) (c : Circuit)
      → InStep (windows c)
      → is_flow (prompt_delivery sha1 sha256 now accepts cd c).1 ≡ false
  unfolding prompt_delivery
  prompt_not_flow now accepts cd c i =
      deliver_flow sha1 sha256 now cd c (let a = i.0 in let b = i.1 in omega arith)

  -- On a circuit whose deliver window and count of DATA cells since the last SENDME are 1000
  -- together, with fewer than 100 counted, deliveries that each run the SENDME they start before the
  -- next one are never refused by the flow control, whether or not those SENDMEs can be sent; and
  -- after the last delivery and its SENDME the two numbers are 1000 together again, with fewer than
  -- 100 counted.
  pub prompt_never_exhausted :
      (cds : List (ℕ × Bool × Cell)) (c : Circuit)
      → c.deliver_window + c.sendme_received ≡ 1000
      → c.sendme_received < 100
      → All (λ e. is_flow e ≡ false) (prompt_run sha1 sha256 cds c).1
        × InStep (windows (prompt_run sha1 sha256 cds c).0)
  unfolding prompt_run
  prompt_never_exhausted [] c i j = (tt, (i, j))
  prompt_never_exhausted ((now, accepts, cd) ∷ cds) c i j =
      let k = prompt-InStep now accepts cd c (i, j) in
      let rest =
        prompt_never_exhausted cds (prompt_delivery sha1 sha256 now accepts cd c).0 k.0 k.1 in
      ((prompt_not_flow now accepts cd c (i, j), rest.0), rest.1)
