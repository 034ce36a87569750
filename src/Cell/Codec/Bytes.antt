-- ===== src/Cell/Codec/Bytes.antt =====
-- What `encode` writes, and where it stops.
use go_tor.Prelude.{
  ℕ, zero, ◌-◌, ◌≤◌, ◌<◌, ◌≡◌, refl, sym, ◌∙◌, ap, Bool, ◌&&◌, true, false, List, [], ◌∷◌, ◌++◌,
  Option, none, some, leb, ltb, if◌then◌else◌, length, replicate, take, append_assoc, append-nil,
  length-append, length-replicate, take-append, take-append_le, take-nil, take_all, be16, be32,
  arith, ok, err, Bool-cases, inl, inr,
}
use go_tor.Cell.Io.{Writer, write_fits, write_full}
use go_tor.Cell.Codec.{
  Cell, is_variable_length, payload_len, cell_len, EncodeError, payload_too_large, write_or,
  encode_padding, encode_payload, encode_length, encode, write_circ_id_failed, write_command_failed,
  write_length_failed, write_payload_failed,
}
use go_tor.Security.Int.{max_uint16}
use go_tor.Security.Convert.{safe_len_to_uint16, too_large}
use go_tor.Security.Convert.Exact.{safe_len_to_uint16_lem}

-- A cell on the wire, as tor-spec.txt section 3 lays it out.
abbrev pub body : Cell → List ℕ
body c =
    if is_variable_length c.command
    then be16 (length c.payload) ++ c.payload
    else c.payload ++ replicate (payload_len - length c.payload) 0

abbrev pub wire : Cell → List ℕ
wire c = be32 c.circ_id ++ (c.command ∷ body c)

abbrev pub is_none : {A : Type 0} → Option A → Bool
is_none none = true
is_none (some _) = false

-- The step writes these bytes as far as the writer has room, and returns no error exactly when it
-- has room for all of them.
abbrev Emits : (Writer → Writer × Option EncodeError) → List ℕ → Type 0
Emits k bytes =
    (w : Writer)
    → ((k w).0.written ≡ w.written ++ take w.room bytes)
      × (is_none (k w).1 ≡ leb (length bytes) w.room)

take_past : (n : ℕ) (p q : List ℕ) → length p ≤ n → take n (p ++ q) ≡ p ++ take (n - length p) q
take_past n p q h = take-append n p q ∙ ap (λ t. t ++ take (n - length p) q) (take_all n p h)

-- The two outcomes of one guarded write.
write_or_fits :
    (e : EncodeError) (p : List ℕ) (k : Writer → Writer × Option EncodeError) (w : Writer)
    → leb (length p) w.room ≡ true
    → write_or e w p k ≡ k (record { written = w.written ++ p; room = w.room - length p })
write_or_fits e p k w h = cc (write_fits w p h)

write_or_full :
    (e : EncodeError) (p : List ℕ) (k : Writer → Writer × Option EncodeError) (w : Writer)
    → leb (length p) w.room ≡ false
    → write_or e w p k ≡ (record { written = w.written ++ take w.room p; room = 0 }, some e)
write_or_full e p k w h = ground (arith, write_full w p h)

write_or-Emits :
    (e : EncodeError) (p q : List ℕ) (k : Writer → Writer × Option EncodeError)
    → Emits k q
    → Emits (λ w. write_or e w p k) (p ++ q)
write_or-Emits e p q k h w = elim (Bool-cases (leb (length p) w.room)) [
  | inl fits ↦
      let next = h (record { written = w.written ++ p; room = w.room - length p }) in
      rw (write_or_fits e p k w fits) (
        next.0
            ∙ append_assoc w.written p (take (w.room - length p) q)
            ∙ ap (λ t. w.written ++ t) (sym (take_past w.room p q (ground arith))),
        next.1 ∙ ground (arith, length-append p q),
      )
  | inr full ↦ rw (write_or_full e p k w full) (
    ap (λ t. w.written ++ t) (sym (take-append_le w.room p q (ground arith))),
    ground (arith, length-append p q),
  )
]

done-Emits : Emits (λ w. (w, none)) []
done-Emits w = (rw take-nil (sym (append-nil w.written)), ground arith)

last_write-Emits : (e : EncodeError) (p : List ℕ) → Emits (λ w. write_or e w p (λ v. (v, none))) p
last_write-Emits e p = rw append-nil at (write_or-Emits e p [] (λ v. (v, none)) done-Emits)

if-Emits :
    (b : Bool) (k l : Writer → Writer × Option EncodeError) (p : List ℕ)
    → (b ≡ true → Emits k p)
    → (b ≡ false → Emits l p)
    → Emits (λ w. if b then k w else l w) p
if-Emits true k l p h g = h refl
if-Emits false k l p h g = g refl

encode_padding-Emits :
    (c : Cell) → Emits (encode_padding c) (replicate (payload_len - length c.payload) 0)
unfolding encode_padding
encode_padding-Emits c =
    if-Emits (ltb 0 (payload_len - length c.payload)) _ _ _ (λ _. last_write-Emits _ _)
      (λ h.
        let none_left : payload_len - length c.payload ≡ 0 = ground arith in
        rw none_left done-Emits)

-- The payload, followed by its padding in a fixed-size cell.
encode_variable-Emits :
    (c : Cell) → is_variable_length c.command ≡ true → Emits (encode_payload c) c.payload
unfolding encode_payload
encode_variable-Emits c v = rw v (last_write-Emits write_payload_failed c.payload)

encode_fixed-Emits :
    (c : Cell)
    → is_variable_length c.command ≡ false
    → Emits (encode_payload c) (c.payload ++ replicate (payload_len - length c.payload) 0)
unfolding encode_payload
encode_fixed-Emits c f =
    rw f
      (write_or-Emits write_payload_failed c.payload _ (encode_padding c) (encode_padding-Emits c))

pub length_fits :
    (p : List ℕ) → ltb max_uint16 (length p) ≡ false → safe_len_to_uint16 p ≡ ok (length p)
length_fits p h = ground (arith, safe_len_to_uint16_lem p)

encode_length-Emits :
    (c : Cell)
    → (is_variable_length c.command && ltb max_uint16 (length c.payload)) ≡ false
    → Emits (encode_length c) (body c)
unfolding encode_length
encode_length-Emits c fits = elim (Bool-cases (is_variable_length c.command)) [
  | inl v ↦
      rw (v, length_fits c.payload (ground arith))
        (write_or-Emits write_length_failed (be16 (length c.payload)) c.payload (encode_payload c)
          (encode_variable-Emits c v))
  | inr f ↦ rw f (encode_fixed-Emits c f)
]

-- The writer ends with the cell's wire form, cut where its room ends, and no error is returned
-- exactly when the whole form had room: for every fixed-size cell, and for every variable-length
-- cell whose payload length fits the two-byte field.
pub encode_writes :
    (c : Cell) (w : Writer)
    → (is_variable_length c.command && ltb max_uint16 (length c.payload)) ≡ false
    → ((encode c w).0.written ≡ w.written ++ take w.room (wire c))
      × (is_none (encode c w).1 ≡ leb (length (wire c)) w.room)
unfolding encode
encode_writes c w fits =
    write_or-Emits write_circ_id_failed (be32 c.circ_id) (c.command ∷ body c)
      (λ v. write_or write_command_failed v (c.command ∷ []) (λ u. encode_length c u))
      (write_or-Emits write_command_failed (c.command ∷ []) (body c) (encode_length c)
        (encode_length-Emits c fits))
      w

length_overflows : (p : List ℕ) → max_uint16 < length p → safe_len_to_uint16 p ≡ err too_large
length_overflows p h = ground (arith, safe_len_to_uint16_lem p)

-- A variable-length cell with a longer payload is refused after its five header bytes are written.
pub encode_oversize :
    (c : Cell) (w : Writer)
    → is_variable_length c.command ≡ true
    → max_uint16 < length c.payload
    → 5 ≤ w.room
    → ((encode c w).1 ≡ some payload_too_large)
      × ((encode c w).0.written ≡ w.written ++ (be32 c.circ_id ++ (c.command ∷ [])))
unfolding encode
encode_oversize c w v h room =
    let w1 : Writer = record { written = w.written ++ be32 c.circ_id; room = w.room - 4 } in
    rw
      (
        write_or_fits write_circ_id_failed (be32 c.circ_id)
            (λ v. write_or write_command_failed v (c.command ∷ []) (λ u. encode_length c u)) w
            (ground arith),
        write_or_fits write_command_failed (c.command ∷ []) (λ u. encode_length c u) w1
            (ground arith),
        v,
        length_overflows c.payload h,
      )
      (refl, append_assoc w.written (be32 c.circ_id) (c.command ∷ []))

-- A fixed-size cell whose payload fits takes 514 bytes on the wire.
pub length-wire_fixed :
    (c : Cell)
    → is_variable_length c.command ≡ false
    → length c.payload ≤ payload_len
    → length (wire c) ≡ cell_len
length-wire_fixed c f h = rw f (
    omega (
      arith,
      length-append c.payload (replicate (payload_len - length c.payload) 0),
      length-replicate (payload_len - length c.payload) zero,
    ))
