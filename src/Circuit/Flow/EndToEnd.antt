-- ===== src/Circuit/Flow/EndToEnd.antt =====
-- What a relay cell that `SendRelayCell` puts on the wire is once the relays have peeled it.
use go_tor.Prelude.{
  ℕ, ◌-◌, ◌<◌, ◌≡◌, ◌⊎◌, inl, inr, refl, sym, subst, ap, ◌∙◌, true, false, Bool-cases, List, [],
  ◌∷◌, none, some, ok, ◌==◌, leb, arith,
}
use go_tor.Cell.Codec.{cmd_relay}
use go_tor.Cell.Relay.{RelayCell, relay_data, encode_relay}
use go_tor.Circuit.Crypto.{Hop, apply_forward, apply_cipher, stamp_hop, stamp_exit, encrypt_forward}
use go_tor.Circuit.Crypto.Onion.{peel, peel-encrypt_forward}
use go_tor.Circuit.Core.{Circuit, sender, is_open}
use go_tor.Circuit.Flow.{Sent, seal_and_send, encoded, connected, transmit, send_relay_cell}
use go_tor.Circuit.Flow.Sending.{send_other, send_data_open}

module _ (sha1 : List ℕ → List ℕ) where
  -- Stamping leaves the ciphers alone.
  stamp_hop_cipher :
      (p : List ℕ) (h : Hop) → (stamp_hop sha1 p h).0.forward_cipher ≡ h.forward_cipher
  unfolding stamp_hop
  stamp_hop_cipher p h = ground arith

  peel_one :
      (p q : List ℕ) (h : Hop) → (peel ((stamp_hop sha1 p h).0 ∷ []) q).1 ≡ (peel (h ∷ []) q).1
  unfolding peel apply_forward
  peel_one p q h = ap (λ s. (apply_cipher s q).1) (stamp_hop_cipher p h)

  peel-stamp_exit :
      (p q : List ℕ) (hops : List Hop) → (peel (stamp_exit sha1 p hops).0 q).1 ≡ (peel hops q).1
  unfolding stamp_exit peel
  peel-stamp_exit p q [] = refl
  peel-stamp_exit p q (h ∷ []) = peel_one p q h
  peel-stamp_exit p q (h ∷ g ∷ hs) = peel-stamp_exit p (apply_forward h q).1 (g ∷ hs)

  -- The link cell of a payload, which the relays peel to the stamped payload.
  abbrev pub ReachesExit : Circuit → List ℕ → Sent → Type 0
  ReachesExit c payload s =
      (q : List ℕ) × (s.wire ≡ some (record { circ_id = c.id; command = cmd_relay; payload = q }))
      × (s.error ≡ none)
      × ((peel c.hops q).1 ≡ (stamp_exit sha1 payload c.hops).1)

  seal-ReachesExit :
      (now : ℕ) (payload : List ℕ) (c : Circuit)
      → c.conn ≡ sender
      → ReachesExit c payload (seal_and_send sha1 now true payload c)
  unfolding seal_and_send
  seal-ReachesExit now payload c e =
      let t = stamp_exit sha1 payload c.hops in
      let q = (encrypt_forward t.0 t.1).1 in
      rw e (
        q,
        refl,
        refl,
        sym (peel-stamp_exit payload q c.hops) ∙ ap (λ r. r.1) (peel-encrypt_forward t.0 t.1),
      )

  transmit_open :
      (now : ℕ) (rc : RelayCell) (c : Circuit) (payload : List ℕ)
      → is_open c.state ≡ true
      → c.conn ≡ sender
      → encode_relay rc ≡ ok payload
      → transmit sha1 now true rc c ≡ seal_and_send sha1 now true payload c
  unfolding transmit connected encoded
  transmit_open now rc c payload o s e = rw (o, s, e) refl

  -- A relay cell that can be encoded, sent on an open circuit whose connection takes it, and, for a
  -- DATA cell, while the package window is open: SendCell is called with a RELAY cell of the circuit
  -- whose payload the relays on the path, each with its own key stream, peel to the encoded relay cell
  -- with the exit's running digest in it.
  pub send-ReachesExit :
      (now : ℕ) (rc : RelayCell) (c : Circuit) (payload : List ℕ)
      → is_open c.state ≡ true
      → c.conn ≡ sender
      → encode_relay rc ≡ ok payload
      → ((rc.command == relay_data) ≡ false) ⊎ (0 < c.package_window)
      → ReachesExit c payload (send_relay_cell sha1 now true rc c)
  send-ReachesExit now rc c payload o s e w = elim (Bool-cases (rc.command == relay_data)) [
    | inr d ↦
        subst (ReachesExit c payload)
          (sym (send_other sha1 now true rc c d ∙ transmit_open now rc c payload o s e))
          (seal-ReachesExit now payload c s)
    | inl d ↦
        let open_ : leb c.package_window 0 ≡ false = elim w [
          | inl n ↦ absurd (cc)
          | inr p ↦ ground arith
        ] in
        let c' = record c { package_window = c.package_window - 1 } in
        subst (ReachesExit c payload)
          (sym (send_data_open sha1 now true rc c d open_ ∙ transmit_open now rc c' payload o s e))
          (seal-ReachesExit now payload c' s)
  ]
