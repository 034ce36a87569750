-- ===== src/Cell/Codec/Sound.antt =====
-- What a successful `decode_cell` says of its input.
use go_tor.Prelude.{
  ℕ, ◌-◌, ◌≤◌, ◌<◌, ◌^◌, ◌≡◌, refl, sym, ap₂, subst, ◌∙◌, ap, true, false, List, [], ◌∷◌, ◌++◌,
  none, some, leb, if◌then◌else◌, length, take, drop, append-nil, be16, be32, arith, Result, ok,
  Bool-cases, inl, inr, AreBytes, All-take, All-drop, take-append-drop, length-take, be16-of_be16,
  be32-of_be32,
}
use go_tor.Cell.Io.{read_full}
use go_tor.Cell.Codec.{
  Cell, is_variable_length, payload_len, DecodeError, decode_cell, decode_payload, read_or,
  read_circ_id_failed, read_command_failed, uint16_of, read_length_failed,
  read_variable_payload_failed, read_fixed_payload_failed, uint32_of, byte_of,
}
use go_tor.Cell.Codec.Bytes.{wire, body}
use go_tor.Cell.Codec.RoundTrip.{IsCell}

read_full_fits :
    (n : ℕ) (r : List ℕ) → leb n (length r) ≡ true → read_full n r ≡ some (take n r, drop n r)
unfolding read_full
read_full_fits n r h = rw h

read_full_short : (n : ℕ) (r : List ℕ) → leb n (length r) ≡ false → read_full n r ≡ none
unfolding read_full
read_full_short n r h = rw h

-- A read that succeeded, and what it passed on.
pub read_or_ok :
    {A : Type 0} (e : DecodeError) (n : ℕ) (r : List ℕ)
    (next : List ℕ → List ℕ → Result DecodeError A) {a : A}
    → AreBytes r
    → read_or e n r next ≡ ok a
    → (r ≡ take n r ++ drop n r)
      × (length (take n r) ≡ n)
      × AreBytes (take n r)
      × AreBytes (drop n r)
      × (next (take n r) (drop n r) ≡ ok a)
read_or_ok e n r next b h = elim (Bool-cases (leb n (length r))) [
  | inl fits ↦ (
    sym (take-append-drop n r),
    ground (arith, length-take n r),
    All-take _ n r b,
    All-drop _ n r b,
    cc (read_full_fits n r fits),
  )
  | inr short ↦ absurd (cc (read_full_short n r short))
]

be32-uint32_of :
    (i : List ℕ) → length i ≡ 4 → AreBytes i → (be32 (uint32_of i) ≡ i) × (uint32_of i < 2 ^ 32)
be32-uint32_of [] h b = absurd (omega arith)
be32-uint32_of (a ∷ []) h b = absurd (omega arith)
be32-uint32_of (a ∷ b ∷ []) h k = absurd (omega arith)
be32-uint32_of (a ∷ b ∷ c ∷ []) h k = absurd (omega arith)
be32-uint32_of (a ∷ b ∷ c ∷ d ∷ []) h k =
    (be32-of_be32 a b c d k.0 k.1.0 k.1.1.0 k.1.1.1.0, omega arith)
be32-uint32_of (a ∷ b ∷ c ∷ d ∷ e ∷ r) h k = absurd (omega arith)

be16-uint16_of :
    (i : List ℕ) → length i ≡ 2 → AreBytes i → (be16 (uint16_of i) ≡ i) × (uint16_of i < 2 ^ 16)
be16-uint16_of [] h b = absurd (omega arith)
be16-uint16_of (a ∷ []) h b = absurd (omega arith)
be16-uint16_of (a ∷ b ∷ []) h k = (be16-of_be16 a b k.0 k.1.0, omega arith)
be16-uint16_of (a ∷ b ∷ c ∷ r) h k = absurd (omega arith)

singleton-byte_of :
    (i : List ℕ) → length i ≡ 1 → AreBytes i → (byte_of i ∷ [] ≡ i) × (byte_of i < 256)
singleton-byte_of [] h b = absurd (omega arith)
singleton-byte_of (a ∷ []) h k = (refl, k.0)
singleton-byte_of (a ∷ b ∷ r) h k = absurd (omega arith)

pub ok-injective : {A : Type 0} {x y : A} → ◌≡◌ {A = Result DecodeError A} (ok x) (ok y) → x ≡ y
ok-injective h = cc

-- What the payload step found: the two header fields as given, and an input that is the body of
-- the cell followed by the rest.
abbrev pub Found : ℕ → ℕ → List ℕ → Cell × List ℕ → Type 0
Found id cmd r x =
    (x.0.circ_id ≡ id)
    × (x.0.command ≡ cmd)
    × (r ≡ body x.0 ++ x.1)
    × AreBytes x.0.payload
    × (length x.0.payload ≤ (if is_variable_length cmd then 65535 else payload_len))

body_variable :
    (c : Cell) (r a d q : List ℕ)
    → is_variable_length c.command ≡ true
    → r ≡ a ++ d
    → be16 (length c.payload) ≡ a
    → d ≡ c.payload ++ q
    → r ≡ body c ++ q
body_variable c r a d q v e f g = rw v (e ∙ ap₂ ◌++◌ (sym f) g)

body_fixed :
    (c : Cell) (r q : List ℕ)
    → is_variable_length c.command ≡ false
    → length c.payload ≡ payload_len
    → r ≡ c.payload ++ q
    → r ≡ body c ++ q
body_fixed c r q f n e =
    let full : payload_len - length c.payload ≡ 0 = omega arith in rw (f, full, append-nil) e

Found-variable :
    (id cmd : ℕ) (r : List ℕ) {x : Cell × List ℕ}
    → AreBytes r
    → is_variable_length cmd ≡ true
    → decode_payload id cmd r ≡ ok x
    → Found id cmd r x
unfolding decode_payload
Found-variable id cmd r b v h =
    let (e1, n1, b1, c1, h1) = read_or_ok read_length_failed 2 r _ b (rw v at h) in
    let (e2, n2, b2, c2, h2) =
      read_or_ok read_variable_payload_failed (uint16_of (take 2 r)) (drop 2 r) _ c1 h1 in
    let (f1, f2) = be16-uint16_of (take 2 r) n1 b1 in
    subst (Found id cmd r) (ok-injective h2) (
      refl,
      refl,
      body_variable
          (record { circ_id = id; command = cmd; payload = take (uint16_of (take 2 r)) (drop 2 r) })
          r (take 2 r) (drop 2 r) _ v e1 (ap be16 n2 ∙ f1) e2,
      b2,
      rw v (omega arith),
    )

Found-fixed :
    (id cmd : ℕ) (r : List ℕ) {x : Cell × List ℕ}
    → AreBytes r
    → is_variable_length cmd ≡ false
    → decode_payload id cmd r ≡ ok x
    → Found id cmd r x
unfolding decode_payload
Found-fixed id cmd r b f h =
    let (e1, n1, b1, c1, h1) = read_or_ok read_fixed_payload_failed payload_len r _ b (rw f at h) in
    subst (Found id cmd r) (ok-injective h1) (
      refl,
      refl,
      body_fixed (record { circ_id = id; command = cmd; payload = take payload_len r }) r _ f n1 e1,
      b1,
      rw f (omega arith),
    )

pub found :
    (id cmd : ℕ) (r : List ℕ) {x : Cell × List ℕ}
    → AreBytes r
    → decode_payload id cmd r ≡ ok x
    → Found id cmd r x
found id cmd r b h = elim (Bool-cases (is_variable_length cmd)) [
  | inl v ↦ Found-variable id cmd r b v h
  | inr f ↦ Found-fixed id cmd r b f h
]

-- Where decoding succeeds, the input is the wire form of the decoded cell followed by the rest, and
-- the cell is in range: no byte of the input is lost or made up.
pub decode_cell_sound :
    (r : List ℕ) {c : Cell} {rest : List ℕ}
    → AreBytes r
    → decode_cell r ≡ ok (c, rest)
    → (r ≡ wire c ++ rest) × IsCell c
unfolding decode_cell
decode_cell_sound r {c} {rest} b h =
    let (e1, n1, b1, c1, h1) = read_or_ok read_circ_id_failed 4 r _ b h in
    let (e2, n2, b2, c2, h2) = read_or_ok read_command_failed 1 (drop 4 r) _ c1 h1 in
    let (f1, f2) = be32-uint32_of (take 4 r) n1 b1 in
    let (g1, g2) = singleton-byte_of (take 1 (drop 4 r)) n2 b2 in
    let (i, k, e3, b3, l) = found _ _ (drop 1 (drop 4 r)) c2 h2 in
    (
      e1
          ∙ ap₂ ◌++◌ (sym f1 ∙ ap be32 (sym i))
              (e2 ∙ ap₂ ◌++◌ (sym g1 ∙ ap (λ t. t ∷ []) (sym k)) e3),
      record {
        id_range = rw i f2;
        command_range = rw k g2;
        payload_bytes = b3;
        payload_fits = rw k l;
      },
    )
