-- ===== src/Circuit/Builder/Built.antt =====
-- What a circuit is after it was built.
use Prim.Native.String.{String}
use go_tor.Prelude.{
  ℕ, ◌≡◌, ◌≢◌, refl, sym, ap, ◌∙◌, inl, inr, Bool, true, false, List, [], ◌∷◌, ◌++◌, append_assoc,
  none, some, Result, ok, err, length, get_elem?, set, ◌==◌, if◌then◌else◌, Bool-cases, ◌-◌, ◌⊎◌,
  leb,
}
use go_tor.Prelude.Refs.{get_elem-set_same}
use go_tor.Directory.{Relay}
use go_tor.Path.{Path3}
use go_tor.Cell.Relay.{RelayCell, relay_data}
use go_tor.Circuit.Crypto.{Hop}
use go_tor.Circuit.Core.{
  Circuit, State, CircuitError, Connection, no_connection, add_hop, set_state, new_circuit,
  is_building, state_building, state_open, state_failed, is_open,
}
use go_tor.Circuit.Flow.{
  Sent, FlowError, send_relay_cell, transmit, connected, refused, flow_control, circuit_not_open,
  SendError, no_conn, decrement_package_window, package_window_exhausted,
}
use go_tor.Circuit.Builder.{
  BuildError, add_hop_failed, connection_failed, hop_of, next_hop, extend_along, finish_build,
}

module _ (fingerprint_text address_text : Relay → String) where
  abbrev pub path_hops : Path3 → List Hop
  path_hops p =
      hop_of fingerprint_text address_text p.guard true false
      ∷ hop_of fingerprint_text address_text p.middle false false
      ∷ hop_of fingerprint_text address_text p.exit false true
      ∷ []

  add_hop_building :
      (hop : Hop) (c : Circuit)
      → is_building c.state ≡ true
      → add_hop hop c ≡ ok (record c { hops = c.hops ++ (hop ∷ []) })
  unfolding add_hop
  add_hop_building hop c h = rw h refl

  add_hop_refused :
      (hop : Hop) (c : Circuit)
      → is_building c.state ≡ false
      → add_hop hop c ≡ err go_tor.Circuit.Core.cannot_add_hop
  unfolding add_hop
  add_hop_refused hop c h = rw h refl

  three_hops :
      (xs : List Hop) (a b c : Hop)
      → ((xs ++ (a ∷ [])) ++ (b ∷ [])) ++ (c ∷ []) ≡ xs ++ (a ∷ b ∷ c ∷ [])
  three_hops xs a b c =
      append_assoc (xs ++ (a ∷ [])) (b ∷ []) (c ∷ []) ∙ append_assoc xs (a ∷ []) (b ∷ c ∷ [])

  next_hop_ok :
      (hop : Hop) (c d : Circuit) (rest : Circuit → Circuit × Result BuildError (Unit {0}))
      → add_hop hop c ≡ ok d
      → next_hop hop rest c ≡ rest d
  next_hop_ok hop c d rest e =
      ap (λ r. elim r [ err _ ↦ (set_state state_failed c, err add_hop_failed) | ok c' ↦ rest c' ])
        e

  extend_building :
      (p : Path3) (c : Circuit)
      → is_building c.state ≡ true
      → extend_along fingerprint_text address_text p c
        ≡ (record c { hops = c.hops ++ path_hops p; state = state_open }, ok tt)
  unfolding extend_along set_state
  extend_building p c h =
      let g = hop_of fingerprint_text address_text p.guard true false in
      let m = hop_of fingerprint_text address_text p.middle false false in
      let x = hop_of fingerprint_text address_text p.exit false true in
      let c1 : Circuit = record c { hops = c.hops ++ (g ∷ []) } in
      let c2 : Circuit = record c { hops = (c.hops ++ (g ∷ [])) ++ (m ∷ []) } in
      let last : Circuit → Circuit × Result BuildError (Unit {0}) =
        λ d. (set_state state_open d, ok tt) in
      next_hop_ok g c c1 (next_hop m (next_hop x last)) (add_hop_building g c h)
      ∙ next_hop_ok m c1 c2 (next_hop x last) (add_hop_building m c1 h)
      ∙ next_hop_ok x c2 _ last (add_hop_building x c2 h)
      ∙ ap (λ t. (record c { hops = t; state = state_open }, ok tt)) (three_hops c.hops g m x)

  extend_refused :
      (p : Path3) (c : Circuit)
      → is_building c.state ≡ false
      → extend_along fingerprint_text address_text p c
        ≡ (set_state state_failed c, err add_hop_failed)
  unfolding extend_along
  extend_refused p c h =
      let g = hop_of fingerprint_text address_text p.guard true false in
      let m = hop_of fingerprint_text address_text p.middle false false in
      let x = hop_of fingerprint_text address_text p.exit false true in
      let rest : Circuit → Circuit × Result BuildError (Unit {0}) =
        next_hop m (next_hop x (λ d. (set_state state_open d, ok tt))) in
      ap (λ r. elim r [ err _ ↦ (set_state state_failed c, err add_hop_failed) | ok d ↦ rest d ])
        (add_hop_refused g c h)

  -- A build ends with the circuit open, its hops the guard, the middle and the exit of the path behind
  -- those it had, where the connection is made and the circuit is still building; it fails the circuit
  -- otherwise, even one that was closed meanwhile, and leaves it where it is.
  pub finish_build_exact :
      (made : Bool) (p : Path3) (r : ℕ) (heap : List Circuit) (c : Circuit)
      → get_elem? heap r ≡ some c
      → finish_build fingerprint_text address_text made p r heap ≡ (
          if made
          then if is_building c.state
            then (set heap r (record c { hops = c.hops ++ path_hops p; state = state_open }), ok r)
            else (set heap r (set_state state_failed c), err add_hop_failed)
          else (set heap r (set_state state_failed c), err connection_failed))
  unfolding finish_build
  finish_build_exact false p r heap c h = rw h refl
  finish_build_exact true p r heap c h = elim (Bool-cases (is_building c.state)) [
    | inl b ↦ rw (h, b, extend_building p c b) refl
    | inr b ↦ rw (h, b, extend_refused p c b) refl
  ]

-- What is sent on a circuit without a connection is refused.
transmit_unconnected :
    (sha1 : List ℕ → List ℕ) (now : ℕ) (accepts : Bool) (rc : RelayCell) (c : Circuit)
    → c.conn ≡ no_connection
    → (d : Circuit) × (e : SendError) × (transmit sha1 now accepts rc c ≡ refused d e)
unfolding transmit connected
transmit_unconnected sha1 now accepts rc c h = elim (Bool-cases (is_open c.state)) [
  | inl o ↦ (c, no_conn, rw o (ap (λ k. connected sha1 now accepts rc c k) h))
  | inr o ↦ (c, circuit_not_open, rw o refl)
]

after_window :
    (sha1 : List ℕ → List ℕ) (now : ℕ) (accepts : Bool) (rc : RelayCell) (c : Circuit)
    → Result FlowError Circuit
    → Sent
after_window sha1 now accepts rc c m = elim m [
  | err _ ↦ refused c flow_control
  | ok c' ↦ transmit sha1 now accepts rc c'
]

window_cases :
    (c : Circuit)
    → (decrement_package_window c ≡ err package_window_exhausted)
      ⊎ (decrement_package_window c ≡ ok (record c { package_window = c.package_window - 1 }))
unfolding decrement_package_window
window_cases c = elim (Bool-cases (leb c.package_window 0)) [
  | inl e ↦ inl (rw e refl)
  | inr e ↦ inr (rw e refl)
]

send_unconnected :
    (sha1 : List ℕ → List ℕ) (now : ℕ) (accepts : Bool) (rc : RelayCell) (c : Circuit)
    → c.conn ≡ no_connection
    → (d : Circuit) × (e : SendError) × (send_relay_cell sha1 now accepts rc c ≡ refused d e)
unfolding send_relay_cell after_window
send_unconnected sha1 now accepts rc c h = elim (Bool-cases (rc.command == relay_data)) [
  | inl e ↦ elim (window_cases c) [
    | inl w ↦ (c, flow_control, rw e (ap (after_window sha1 now accepts rc c) w))
    | inr w ↦
        let c' : Circuit = record c { package_window = c.package_window - 1 } in
        let (d, f, g) = transmit_unconnected sha1 now accepts rc c' h in
        (d, f, rw e (ap (after_window sha1 now accepts rc c) w ∙ g))
  ]
  | inr e ↦ let (d, f, g) = transmit_unconnected sha1 now accepts rc c h in (d, f, rw e g)
]

-- A circuit that was created and built is open with three hops, and every relay cell sent on it is
-- refused with an error and nothing on the wire: the build leaves it without a connection.
pub built_cannot_send :
    (fingerprint_text address_text : Relay → String) (p : Path3) (t id r : ℕ) (heap : List Circuit)
    → get_elem? heap r ≡ some (new_circuit t id)
    → let after = (finish_build fingerprint_text address_text true p r heap).0 in
      (c : Circuit) × (get_elem? after r ≡ some c)
      × (c.state ≡ state_open)
      × (length c.hops ≡ 3)
      × ((sha1 : List ℕ → List ℕ) (now : ℕ) (accepts : Bool) (rc : RelayCell)
          → ((send_relay_cell sha1 now accepts rc c).wire ≡ none)
            × ((send_relay_cell sha1 now accepts rc c).error ≢ none))
unfolding new_circuit
built_cannot_send fingerprint_text address_text p t id r heap h =
    let b = finish_build_exact fingerprint_text address_text true p r heap (new_circuit t id) h in
    let c : Circuit = record (new_circuit t id) {
      hops = path_hops fingerprint_text address_text p;
      state = state_open;
    } in
    (
      c,
      ap (λ x. get_elem? x.0 r) b ∙ get_elem-set_same heap r (new_circuit t id) c h,
      refl,
      refl,
      λ sha1 now accepts rc.
          (let (d, e, g) = send_unconnected sha1 now accepts rc c refl in
            (ap (λ s. s.wire) g, λ q. absurd (let k = ap (λ s. s.error) (sym g) ∙ q in cc))),
    )
