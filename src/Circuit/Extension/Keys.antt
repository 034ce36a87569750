-- ===== src/Circuit/Extension/Keys.antt =====
-- pkg/circuit/extension.go with pkg/directory/directory.go: the keys that a parsed consensus lacks.
use go_tor.Prelude.{
  ℕ, ◌*◌, ◌/◌, ◌≡◌, refl, sym, subst, ap, ◌∙◌, inl, inr, Bool, true, false, List, [], ◌∷◌, ◌++◌,
  map, Option, some, Result, ok, err, ltb, ◌==◌, if◌then◌else◌, Bool-cases, length, replicate, All,
  arith,
}
use go_tor.Directory.{
  Relay, line_of, has_valid_keys, parse_consensus, DirectoryError, excessive_malformed,
}
use go_tor.Directory.Entries.{entries, routers, malformed}
use go_tor.Directory.Consensus.{entries-keys, parse_consensus_exact}
use go_tor.Circuit.Extension.Handshake.{ntor_data-exact}
use go_tor.Circuit.Extension.{
  Extension, with_keys, set_target_relay, get_relay_keys, keys_or_zeros, ntor_data, ntor_handshake,
  generate_handshake_data,
}

no_valid_keys :
    (q : Relay)
    → has_valid_keys q ≡ false
    → keys_or_zeros (get_relay_keys (with_keys q.identity_key q.ntor_onion_key))
      ≡ (replicate 32 0, replicate 32 0)
unfolding has_valid_keys get_relay_keys
no_valid_keys q h = elim (Bool-cases (length q.identity_key == 32)) [
  | inl e ↦ let f : (length q.ntor_onion_key == 32) ≡ false = ground arith in rw (e, f) refl
  | inr e ↦ rw e refl
]

zero_data :
    (q : Relay) (private public : List ℕ) (random : Option (List ℕ)) (e : Extension)
    → length public ≡ 32
    → has_valid_keys q ≡ false
    → (generate_handshake_data
        (some (private, public))
        random
        2
        (set_target_relay (with_keys q.identity_key q.ntor_onion_key) e)).1
      ≡ ok (replicate 52 0 ++ public)
unfolding generate_handshake_data ntor_handshake set_target_relay
zero_data q private public random e l h =
    ap (λ k. ok (ntor_data k.0 k.1 public)) (no_valid_keys q h)
    ∙ ap ok (ntor_data-exact (replicate 32 0) (replicate 32 0) public refl refl l)

accepted :
    (b : Bool) (y r : List Relay)
    → ◌≡◌ {A = Result DirectoryError (List Relay)}
        (ok r)
        (if b then err excessive_malformed else ok y)
    → r ≡ y
accepted true y r h = absurd (cc)
accepted false y r h = ap (λ m. elim m [ ok x ↦ x | err _ ↦ r ]) h

parsed_entries :
    (lines : List (List ℕ)) (relays : List Relay)
    → parse_consensus lines false ≡ ok relays
    → relays ≡ entries (map line_of lines)
parsed_entries lines relays h =
    let ls = map line_of lines in
    accepted (ltb (routers ls * 10 / 100) (malformed ls)) (entries ls) relays
      (sym h ∙ parse_consensus_exact lines false)

All-map : (P Q : Relay → Type 0) (rs : List Relay) → ((q : Relay) → P q → Q q) → All P rs → All Q rs
All-map P Q [] f h = tt
All-map P Q (r ∷ rs) f h = (f r h.0, All-map P Q rs f h.1)

-- For no relay that is read from a consensus does the handshake use the relay's keys: its data are 52
-- zeros and the public half of the new key pair.
pub consensus_keys_missing :
    (lines : List (List ℕ)) (relays : List Relay) (private public : List ℕ)
    (random : Option (List ℕ)) (e : Extension)
    → parse_consensus lines false ≡ ok relays
    → length public ≡ 32
    → All
        (λ q.
          (generate_handshake_data
            (some (private, public))
            random
            2
            (set_target_relay (with_keys q.identity_key q.ntor_onion_key) e)).1
          ≡ ok (replicate 52 0 ++ public))
        relays
consensus_keys_missing lines relays private public random e h l =
    All-map (λ q. has_valid_keys q ≡ false) _ relays (λ q. zero_data q private public random e l)
      (subst (All (λ q. has_valid_keys q ≡ false)) (sym (parsed_entries lines relays h))
        (entries-keys (map line_of lines)))
