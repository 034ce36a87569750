-- ===== src/Circuit/Flow/ExitReads.antt =====
-- What the exit decodes of a relay cell that was sent.
use go_tor.Prelude.{
  ℕ, ◌≤◌, ◌<◌, ◌≡◌, ◌⊎◌, inl, inr, refl, sym, ap, ◌∙◌, true, false, Option-cases, List, [], ◌∷◌,
  ◌++◌, Option, none, some, ok, ◌==◌, ◌>>=◌, arith, length, take, drop, drop-append_exact,
  length-take,
}
use go_tor.Cell.Codec.{cmd_relay}
use go_tor.Cell.Relay.{RelayCell, relay_data, encode_relay, decode_relay_cell, max_data_len}
use go_tor.Cell.Relay.RoundTrip.{
  relay_wire, IsRelayCell, encode_relay_exact, decode_relay_cell-encode_relay,
}
use go_tor.Circuit.Crypto.{Hop, stamp_hop, stamp_exit, zero_digest, digest_prefix}
use go_tor.Circuit.Crypto.Onion.{peel}
use go_tor.Circuit.Core.{Circuit, sender, is_open}
use go_tor.Circuit.Flow.{Sent, send_relay_cell}
use go_tor.Circuit.Flow.EndToEnd.{send-ReachesExit}

-- Another digest in the encoded cell.
stamp_wire :
    (rc : RelayCell) (x : List ℕ)
    → length rc.digest ≡ 4
    → take 5 (relay_wire rc) ++ (x ++ drop 9 (relay_wire rc))
      ≡ relay_wire (record rc { digest = x })
stamp_wire rc x h = rw (drop-append_exact 4 rc.digest _ h) refl

encode_fits :
    (rc : RelayCell)
    → IsRelayCell rc
    → length rc.bytes ≤ max_data_len
    → encode_relay rc ≡ ok (relay_wire rc)
encode_fits rc h fits = rw (encode_relay_exact rc h) (ground arith)

decode_wire :
    (rc : RelayCell)
    → IsRelayCell rc
    → length rc.bytes ≤ max_data_len
    → decode_relay_cell (relay_wire rc) ≡ ok rc
decode_wire rc h fits =
    sym (ap (λ r. r >>= decode_relay_cell) (encode_fits rc h fits))
    ∙ decode_relay_cell-encode_relay rc h fits

module _ (sha1 : List ℕ → List ℕ) where
  -- The digest field of a payload once a hop, or the last of the hops, has stamped it.
  field_of : List ℕ → List ℕ → Option (List ℕ) → List ℕ
  field_of own payload none = own
  field_of own payload (some d) = digest_prefix sha1 (d ++ zero_digest payload)

  unfoldable pub exit_field : List ℕ → List ℕ → List Hop → List ℕ
  unfolding field_of
  exit_field own payload [] = own
  exit_field own payload (h ∷ []) = field_of own payload h.forward_digest
  exit_field own payload (h ∷ g ∷ hs) = exit_field own payload (g ∷ hs)

  stamped_hop : List ℕ → Option (List ℕ) → List ℕ
  stamped_hop payload none = payload
  stamped_hop payload (some d) =
      take 5 payload ++ (digest_prefix sha1 (d ++ zero_digest payload) ++ drop 9 payload)

  stamp_hop_field :
      (payload : List ℕ) (h : Hop)
      → (stamp_hop sha1 payload h).1 ≡ stamped_hop payload h.forward_digest
  unfolding stamp_hop stamped_hop
  stamp_hop_field payload h = elim (Option-cases h.forward_digest) [
    | inl e ↦ rw e refl
    | inr (d, e) ↦ rw e refl
  ]

  stamped_hop_wire :
      (rc : RelayCell) (o : Option (List ℕ))
      → length rc.digest ≡ 4
      → (stamped_hop (relay_wire rc) o
          ≡ relay_wire (record rc { digest = field_of rc.digest (relay_wire rc) o }))
  unfolding stamped_hop field_of
  stamped_hop_wire rc none h = refl
  stamped_hop_wire rc (some d) h =
      stamp_wire rc (digest_prefix sha1 (d ++ zero_digest (relay_wire rc))) h

  stamp_exit_wire :
      (rc : RelayCell) (hops : List Hop)
      → length rc.digest ≡ 4
      → ((stamp_exit sha1 (relay_wire rc) hops).1
          ≡ relay_wire (record rc { digest = exit_field rc.digest (relay_wire rc) hops }))
  unfolding stamp_exit exit_field
  stamp_exit_wire rc [] h = refl
  stamp_exit_wire rc (x ∷ []) h =
      stamp_hop_field (relay_wire rc) x ∙ stamped_hop_wire rc x.forward_digest h
  stamp_exit_wire rc (x ∷ y ∷ hs) h = stamp_exit_wire rc (y ∷ hs) h

  length-field_of :
      (own payload : List ℕ) (o : Option (List ℕ))
      → ((d : List ℕ) → 4 ≤ length (sha1 d))
      → length own ≡ 4
      → length (field_of own payload o) ≡ 4
  unfolding field_of digest_prefix
  length-field_of own payload none s h = h
  length-field_of own payload (some d) s h =
      let l = s (d ++ zero_digest payload) in
      omega (arith, length-take 4 (sha1 (d ++ zero_digest payload)))

  length-exit_field :
      (own payload : List ℕ) (hops : List Hop)
      → ((d : List ℕ) → 4 ≤ length (sha1 d))
      → length own ≡ 4
      → length (exit_field own payload hops) ≡ 4
  unfolding exit_field
  length-exit_field own payload [] s h = h
  length-exit_field own payload (x ∷ []) s h = length-field_of own payload x.forward_digest s h
  length-exit_field own payload (x ∷ y ∷ hs) s h = length-exit_field own payload (y ∷ hs) s h

  -- A sent link cell, and the relay cell that is decoded once the relays have peeled it.
  abbrev pub ExitReads : Circuit → RelayCell → Sent → Type 0
  ExitReads c rc s =
      (q : List ℕ) × (s.wire ≡ some (record { circ_id = c.id; command = cmd_relay; payload = q }))
      × (s.error ≡ none)
      × (decode_relay_cell (peel c.hops q).1
          ≡ ok (record rc { digest = exit_field rc.digest (relay_wire rc) c.hops }))

  with_digest :
      (rc : RelayCell) (x : List ℕ)
      → IsRelayCell rc
      → length x ≡ 4
      → IsRelayCell (record rc { digest = x })
  with_digest rc x h l = record {
    command_range = h.command_range;
    recognized_range = h.recognized_range;
    stream_range = h.stream_range;
    digest_length = l;
    length_exact = h.length_exact;
  }

  -- A well-formed relay cell that fits, sent on an open circuit whose connection takes it, and, for a
  -- DATA cell, while the package window is open: SendCell is called with a RELAY cell of the circuit,
  -- and the exit, once the relays on the path have peeled it, each with its own key stream, decodes
  -- from it the relay cell that was sent, with its running digest in the digest field. The sum has
  -- at least four bytes.
  pub send-ExitReads :
      (now : ℕ) (rc : RelayCell) (c : Circuit)
      → is_open c.state ≡ true
      → c.conn ≡ sender
      → IsRelayCell rc
      → length rc.bytes ≤ max_data_len
      → ((rc.command == relay_data) ≡ false) ⊎ (0 < c.package_window)
      → ((d : List ℕ) → 4 ≤ length (sha1 d))
      → ExitReads c rc (send_relay_cell sha1 now true rc c)
  send-ExitReads now rc c o s h fits w long =
      let (q, a, b, p) =
        send-ReachesExit sha1 now rc c (relay_wire rc) o s (encode_fits rc h fits) w in
      let x = exit_field rc.digest (relay_wire rc) c.hops in
      let l = length-exit_field rc.digest (relay_wire rc) c.hops long h.digest_length in
      (
        q,
        a,
        b,
        ap decode_relay_cell (p ∙ stamp_exit_wire rc c.hops h.digest_length)
            ∙ decode_wire (record rc { digest = x }) (with_digest rc x h l) fits,
      )
