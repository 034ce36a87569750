-- ===== src/Cell/Codec/Fixed.antt =====
-- How long the payload of a decoded fixed-size cell is.
use go_tor.Prelude.{ℕ, ◌≡◌, sym, subst, ap, ◌∙◌, false, List, ok, length, drop, AreBytes}
use go_tor.Cell.Codec.{
  Cell, payload_len, is_variable_length, decode_payload, decode_cell, read_circ_id_failed,
  read_command_failed, read_fixed_payload_failed,
}
use go_tor.Cell.Codec.Sound.{read_or_ok, found, ok-injective}

fixed_payload :
    (id cmd : ℕ) (r : List ℕ) {x : Cell × List ℕ}
    → AreBytes r
    → is_variable_length cmd ≡ false
    → decode_payload id cmd r ≡ ok x
    → length x.0.payload ≡ payload_len
unfolding decode_payload
fixed_payload id cmd r b f h =
    let (e1, n1, b1, c1, h1) = read_or_ok read_fixed_payload_failed payload_len r _ b (rw f at h) in
    subst (λ x. length x.0.payload ≡ payload_len) (ok-injective h1) n1

-- A cell of a fixed-size command is decoded with a payload of the full length.
pub decode_cell_fixed :
    (r : List ℕ) {c : Cell} {rest : List ℕ}
    → AreBytes r
    → decode_cell r ≡ ok (c, rest)
    → is_variable_length c.command ≡ false
    → length c.payload ≡ payload_len
unfolding decode_cell
decode_cell_fixed r {c} {rest} b h f =
    let (e1, n1, b1, c1, h1) = read_or_ok read_circ_id_failed 4 r _ b h in
    let (e2, n2, b2, c2, h2) = read_or_ok read_command_failed 1 (drop 4 r) _ c1 h1 in
    let k = (found _ _ (drop 1 (drop 4 r)) c2 h2).1 in
    fixed_payload _ _ (drop 1 (drop 4 r)) c2 (ap is_variable_length (sym k) ∙ f) h2
