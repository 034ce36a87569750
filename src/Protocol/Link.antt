-- ===== src/Protocol/Link.antt =====
-- The handshake over the link cells of pkg/cell.
use go_tor.Prelude.{
  ℕ, ◌≡◌, sym, subst, ◌∙◌, true, false, List, some, ok, ◌==◌, ◌%◌, length, AreBytes, Option-cases,
  inl, inr, arith,
}
use mathlib.Core.Option.{some-injective}
use go_tor.Cell.Codec.{Cell, decode_cell, is_variable_length, payload_len}
use go_tor.Cell.Codec.Fixed.{decode_cell_fixed}
use go_tor.Protocol.{Handshake, HandshakeError, Peer, cmd_versions, perform_handshake}
use go_tor.Protocol.Versions.{Agreed, perform_handshake-Agreed}

versions_fixed : (cmd : ℕ) → (cmd == cmd_versions) ≡ true → is_variable_length cmd ≡ false
versions_fixed cmd h = ground arith

odd_payload : (n : ℕ) → n ≡ payload_len → (n % 2 == 0) ≡ false
odd_payload n h = ground arith

-- The answer to VERSIONS, read from the link with DecodeCell, never completes the handshake: the
-- VERSIONS command counts as one of fixed size, so its payload comes with 509 bytes, an odd number.
-- This holds whatever bytes the other side sends and whatever else happens.
pub handshake_fails_over_link :
    (p : Peer) (h : Handshake) (r : List ℕ) (c : Cell) (rest : List ℕ)
    → AreBytes r
    → decode_cell r ≡ ok (c, rest)
    → p.versions ≡ some c
    → (e : HandshakeError) × ((perform_handshake p h).1 ≡ some e)
handshake_fails_over_link p h r c rest b d v = elim (Option-cases (perform_handshake p h).1) [
  | inr k ↦ k
  | inl n ↦ absurd (refute p h r c rest b d v (perform_handshake-Agreed p h n))
]
  where
    refute :
        (p : Peer) (h : Handshake) (r : List ℕ) (c : Cell) (rest : List ℕ)
        → AreBytes r
        → decode_cell r ≡ ok (c, rest)
        → p.versions ≡ some c
        → (x : Cell) × Agreed p (perform_handshake p h).0 x
        → ⊥
    refute p h r c rest b d v (x, a) =
        let same : x ≡ c = some-injective x c (sym a.answered ∙ v) in
        let k = subst (λ t. (t.command == cmd_versions) ≡ true) same a.is_versions in
        let l = decode_cell_fixed r b d (versions_fixed c.command k) in
        let even = subst (λ t. (length t.payload % 2 == 0) ≡ true) same a.even in
        let odd = odd_payload (length c.payload) l in cc
