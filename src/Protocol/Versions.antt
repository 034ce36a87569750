-- ===== src/Protocol/Versions.antt =====
-- The version that is selected, and what a handshake that succeeds has received.
use go_tor.Prelude.{
  [], ◌∷◌, ◌++◌, be16, ℕ, ◌≡◌, ◌⊎◌, inl, inr, refl, sym, subst, ap, ◌∙◌, true, false, Bool-cases,
  List, Option, none, some, ◌==◌, if◌then◌else◌, length, ◌%◌, arith,
}
use go_tor.Prelude.Subset.{elem}
use go_tor.Cell.Codec.{Cell}
use go_tor.Protocol.{
  Handshake, HandshakeError, Peer, cmd_versions, parse_versions, select_from, select_version,
  process_versions, receive_versions, receive_netinfo, exchange_netinfo, perform_handshake,
  no_compatible_version, not_versions, odd_length, send_versions_failed,
}

-- Both sides support the version, and no higher one.
abbrev pub IsHighest : List ℕ → ℕ → Type 0
IsHighest remote v =
    ((v ≡ 3) × (elem 3 remote ≡ true) × (elem 4 remote ≡ false) × (elem 5 remote ≡ false))
    ⊎ ((v ≡ 4) × (elem 4 remote ≡ true) × (elem 5 remote ≡ false))
    ⊎ ((v ≡ 5) × (elem 5 remote ≡ true))

-- The version that is selected is the highest of 3, 4 and 5 that the other side offers, or 0 where it
-- offers none of them.
pub select_version_exact :
    (remote : List ℕ)
    → ((select_version remote ≡ 0)
        × (elem 3 remote ≡ false)
        × (elem 4 remote ≡ false)
        × (elem 5 remote ≡ false))
      ⊎ IsHighest remote (select_version remote)
unfolding select_version select_from
select_version_exact remote = ground arith

-- `process_versions` on each of its branches.
process_other :
    (c : Cell) (h : Handshake)
    → (c.command == cmd_versions) ≡ false
    → process_versions c h ≡ (h, some not_versions)
unfolding process_versions
process_other c h e = rw e refl

process_odd :
    (c : Cell) (h : Handshake)
    → (c.command == cmd_versions) ≡ true
    → (length c.payload % 2 == 0) ≡ false
    → process_versions c h ≡ (h, some odd_length)
unfolding process_versions
process_odd c h e o = rw (e, o) refl

process_even :
    (c : Cell) (h : Handshake)
    → (c.command == cmd_versions) ≡ true
    → (length c.payload % 2 == 0) ≡ true
    → (process_versions c h ≡ (
      record h { negotiated_version = select_version (parse_versions c.payload) },
      if select_version (parse_versions c.payload) == 0 then some no_compatible_version else none,
    ))
unfolding process_versions
process_even c h e o = rw (e, o) refl

-- The payload of a VERSIONS cell that lists the versions.
abbrev pub listed : List ℕ → List ℕ
listed [] = []
listed (v ∷ vs) = be16 v ++ listed vs

-- What becomes of the handshake when the other side lists versions.
abbrev pub Chosen : List ℕ → Handshake → Handshake × Option HandshakeError → Type 0
Chosen vs h r =
    ((elem 3 vs ≡ false)
      × (elem 4 vs ≡ false)
      × (elem 5 vs ≡ false)
      × (r ≡ (record h { negotiated_version = 0 }, some no_compatible_version)))
    ⊎ ((v : ℕ) × IsHighest vs v × (r ≡ (record h { negotiated_version = v }, none)))

-- The handshake succeeded with the cell the other side sent.
pub record Agreed (p : Peer) (h : Handshake) (c : Cell) : Type 0 where
  pub answered : p.versions ≡ some c
  pub is_versions : (c.command == cmd_versions) ≡ true
  pub even : (length c.payload % 2 == 0) ≡ true
  pub highest : IsHighest (parse_versions c.payload) h.negotiated_version
  pub netinfo_received : receive_netinfo p.netinfo ≡ none

-- What processing without an error shows.
processed :
    (c : Cell) (h : Handshake)
    → (process_versions c h).1 ≡ none
    → ((c.command == cmd_versions) ≡ true)
      × ((length c.payload % 2 == 0) ≡ true)
      × IsHighest (parse_versions c.payload) (process_versions c h).0.negotiated_version
processed c h n = elim (Bool-cases (c.command == cmd_versions)) [
  | inr e ↦ absurd (let k = ap (λ r. r.1) (process_other c h e) in cc)
  | inl e ↦ elim (Bool-cases (length c.payload % 2 == 0)) [
    | inr o ↦ absurd (let k = ap (λ r. r.1) (process_odd c h e o) in cc)
    | inl o ↦
        let k = process_even c h e o in
        (
          e,
          o,
          subst (λ r. IsHighest (parse_versions c.payload) r.0.negotiated_version) (sym k)
              (chosen (parse_versions c.payload) (sym (ap (λ r. r.1) k) ∙ n)),
        )
  ]
]
  where
    chosen :
        (remote : List ℕ)
        → (if select_version remote == 0 then some no_compatible_version else none) ≡ none
        → IsHighest remote (select_version remote)
    chosen remote n = elim (select_version_exact remote) [
      | inr k ↦ k
      | inl (z, a, b, d) ↦ absurd (ground arith)
    ]

perform_off :
    (p : Peer) (h : Handshake)
    → p.accepts_versions ≡ false
    → perform_handshake p h ≡ (h, some send_versions_failed)
unfolding perform_handshake
perform_off p h e = rw e refl

perform_on :
    (p : Peer) (h : Handshake)
    → p.accepts_versions ≡ true
    → (perform_handshake p h
        ≡ ((receive_versions p.versions h).0, exchange_netinfo p (receive_versions p.versions h).1))
unfolding perform_handshake
perform_on p h e = rw e refl

exchanged :
    (p : Peer) (e : Option HandshakeError)
    → exchange_netinfo p e ≡ none
    → (e ≡ none) × (receive_netinfo p.netinfo ≡ none)
unfolding exchange_netinfo
exchanged p (some e) n = absurd (cc)
exchanged p none n = ground arith

received :
    (o : Option Cell) (h : Handshake)
    → (receive_versions o h).1 ≡ none
    → (c : Cell) × (o ≡ some c)
      × ((process_versions c h).1 ≡ none)
      × (receive_versions o h ≡ process_versions c h)
unfolding receive_versions
received none h n = absurd (cc)
received (some c) h n = (c, refl, n, refl)

-- A handshake that succeeds has received a VERSIONS cell with an even payload and a NETINFO cell, and
-- the negotiated version is the highest of 3, 4 and 5 that the VERSIONS cell lists.
pub perform_handshake-Agreed :
    (p : Peer) (h : Handshake)
    → (perform_handshake p h).1 ≡ none
    → (c : Cell) × Agreed p (perform_handshake p h).0 c
perform_handshake-Agreed p h n = elim (Bool-cases p.accepts_versions) [
  | inr e ↦ absurd (let k = ap (λ r. r.1) (perform_off p h e) in cc)
  | inl e ↦
      let k = perform_on p h e in
      let (a, b) = exchanged p (receive_versions p.versions h).1 (sym (ap (λ r. r.1) k) ∙ n) in
      let (c, d, f, g) = received p.versions h a in
      let (i, j, l) = processed c h f in
      (
        c,
        record {
          answered = d;
          is_versions = i;
          even = j;
          highest =
              subst (λ t. IsHighest (parse_versions c.payload) t.negotiated_version)
                (sym (ap (λ r. r.0) k ∙ ap (λ r. r.0) g)) l;
          netinfo_received = b;
        },
      )
]
