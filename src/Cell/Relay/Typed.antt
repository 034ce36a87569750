-- ===== src/Cell/Relay/Typed.antt =====
-- Relay cells whose fields are in the range of their Go types, and payloads of bytes.
use go_tor.Prelude.{
  ℕ, ◌+◌, ◌-◌, ◌^◌, ◌≤◌, ◌<◌, ◌≡◌, inl, inr, List, [], ◌∷◌, ◌++◌, Result, ok, err, ltb, length,
  length-append, length-take, length-drop, length-replicate, take, drop, replicate, be16, AreBytes,
  IsByte, All-append, All-take, All-drop, All-replicate, Bool-cases, arith, if◌then◌else◌,
}
use go_tor.Cell.Codec.{payload_len, uint16_of}
use go_tor.Cell.Codec.Typed.{uint16_of-lt, byte_of-IsByte}
use go_tor.Cell.Relay.{
  RelayCell, RelayError, max_data_len, relay_cell_header_len, encode_relay, decode_relay_cell,
  slice, copy_at,
}

-- The ranges of the fields, a digest of four bytes, and `Length` as the length of `Data`, which fits.
pub record Typed (rc : RelayCell) : Type 0 where
  pub command_range : IsByte rc.command
  pub recognized_range : rc.recognized < 2 ^ 16
  pub stream_range : rc.stream_id < 2 ^ 16
  pub digest_bytes : AreBytes rc.digest
  pub digest_length : length rc.digest ≡ 4
  pub data_bytes : AreBytes rc.bytes
  pub length_exact : rc.length_field ≡ length rc.bytes
  pub data_fits : length rc.bytes ≤ max_data_len

-- What holds of a result, if there is one.
abbrev pub OfOk : {A : Type 0} → (A → Type 0) → Result RelayError A → Type 0
OfOk P (ok a) = P a
OfOk P (err e) = Unit

-- A payload of a link cell.
abbrev pub IsPayload : List ℕ → Type 0
IsPayload p = AreBytes p × (length p ≡ payload_len)

slice-AreBytes : (p : List ℕ) (from to : ℕ) → AreBytes p → AreBytes (slice p from to)
slice-AreBytes p from to h = All-take IsByte (to - from) (drop from p) (All-drop IsByte from p h)

length-slice :
    (p : List ℕ) (from to : ℕ) → from ≤ to → to ≤ length p → length (slice p from to) ≡ to - from
length-slice p from to l h =
    omega (arith, length-take (to - from) (drop from p), length-drop from p)

be16-AreBytes : (v : ℕ) → AreBytes (be16 v)
be16-AreBytes v = (omega arith, (omega arith, tt))

copy_at-IsPayload :
    (p : List ℕ) (at : ℕ) (src : List ℕ)
    → AreBytes src
    → at + length src ≤ payload_len
    → IsPayload p
    → IsPayload (copy_at p at src)
copy_at-IsPayload p at src s l (b, n) =
    let t = take at p in
    let m = take (length p - at) src in
    let d = drop (at + length src) p in
    (
      All-append IsByte t (m ++ d) (All-take IsByte at p b) (
          All-append IsByte m d (All-take IsByte (length p - at) src s)
            (All-drop IsByte (at + length src) p b)),
      omega (
        arith,
        length-append t (m ++ d),
        length-append m d,
        length-take at p,
        length-take (length p - at) src,
        length-drop (at + length src) p,
      ),
    )

copy_be16 :
    (p : List ℕ) (at v : ℕ) → at + 2 ≤ payload_len → IsPayload p → IsPayload (copy_at p at (be16 v))
copy_be16 p at v l h = copy_at-IsPayload p at (be16 v) (be16-AreBytes v) l h

encode_relay-IsPayload :
    (rc : RelayCell)
    → IsByte rc.command
    → AreBytes rc.digest
    → AreBytes rc.bytes
    → OfOk IsPayload (encode_relay rc)
unfolding encode_relay
encode_relay-IsPayload rc c d b = elim (Bool-cases (ltb max_data_len (length rc.bytes))) [
  | inl e ↦ rw e tt
  | inr e ↦ rw e (
      let p0 : List ℕ = replicate payload_len 0 in
      let p1 : List ℕ = copy_at p0 0 (rc.command ∷ []) in
      let p2 : List ℕ = copy_at p1 1 (be16 rc.recognized) in
      let p3 : List ℕ = copy_at p2 3 (be16 rc.stream_id) in
      let p4 : List ℕ = copy_at p3 5 (take 4 rc.digest) in
      let p5 : List ℕ = copy_at p4 9 (be16 rc.length_field) in
      let h0 : IsPayload p0 = (
        All-replicate {A = ℕ} IsByte payload_len 0 (omega arith),
        length-replicate {A = ℕ} payload_len 0,
      ) in
      let h1 = copy_at-IsPayload p0 0 (rc.command ∷ []) (c, tt) (omega arith) h0 in
      let h2 = copy_be16 p1 1 rc.recognized (omega arith) h1 in
      let h3 = copy_be16 p2 3 rc.stream_id (omega arith) h2 in
      let h4 =
        copy_at-IsPayload p3 5 (take 4 rc.digest) (All-take IsByte 4 rc.digest d)
          (omega (arith, length-take 4 rc.digest)) h3 in
      let h5 = copy_be16 p4 9 rc.length_field (omega arith) h4 in
      let l : length rc.bytes ≤ 498 = ground arith in
      copy_at-IsPayload p5 11 rc.bytes b (omega (arith, l)) h5)
]

data_of : List ℕ → ℕ → List ℕ
data_of p n = if ltb 0 n then slice p 11 (11 + n) else []

data_of-AreBytes : (p : List ℕ) (n : ℕ) → AreBytes p → AreBytes (data_of p n)
unfolding data_of
data_of-AreBytes p n h = elim (Bool-cases (ltb 0 n)) [
  | inl e ↦ rw e (slice-AreBytes p 11 (11 + n) h)
  | inr e ↦ rw e tt
]

length-data_of : (p : List ℕ) (n : ℕ) → n + 11 ≤ length p → length (data_of p n) ≡ n
unfolding data_of
length-data_of p n h = elim (Bool-cases (ltb 0 n)) [
  | inl e ↦ rw e (omega (arith, length-slice p 11 (11 + n) (omega arith) (omega (arith, h))))
  | inr e ↦ rw e (ground arith)
]

decode_relay_cell-Typed : (p : List ℕ) → AreBytes p → OfOk Typed (decode_relay_cell p)
unfolding decode_relay_cell data_of
decode_relay_cell-Typed p h =
    let n = uint16_of (slice p 9 11) in
    elim (Bool-cases (ltb (length p) relay_cell_header_len)) [
      | inl a ↦ rw a tt
      | inr a ↦ elim (Bool-cases (ltb max_data_len n)) [
        | inl b ↦ rw (a, b) tt
        | inr b ↦ elim (Bool-cases (ltb (length p - relay_cell_header_len) n)) [
          | inl c ↦ rw (a, b, c) tt
          | inr c ↦
              rw (a, b, c)
                (let enough : 11 ≤ length p = ground arith in
                  let fits : n ≤ 498 = ground arith in
                  let inside : n ≤ length p - 11 = ground arith in
                  let l = length-data_of p n (omega (arith, enough, inside)) in
                  record {
                    command_range = byte_of-IsByte p h;
                    recognized_range = uint16_of-lt (slice p 1 3) (slice-AreBytes p 1 3 h);
                    stream_range = uint16_of-lt (slice p 3 5) (slice-AreBytes p 3 5 h);
                    digest_bytes = slice-AreBytes p 5 9 h;
                    digest_length = length-slice p 5 9 (omega arith) (omega (arith, enough));
                    data_bytes = data_of-AreBytes p n h;
                    length_exact = omega (arith, l);
                    data_fits = omega (arith, l, fits);
                  })
        ]
      ]
    ]

-- A relay cell that is decoded from bytes has its fields in the range of their Go types, a digest of
-- four bytes, and data as long as its length field says and as a payload allows; and a cell whose
-- command, digest and data are bytes is encoded, if it is, as 509 bytes, whatever its numbers.
pub relay_cells-Typed :
    (p : List ℕ) (rc : RelayCell)
    → AreBytes p
    → IsByte rc.command
    → AreBytes rc.digest
    → AreBytes rc.bytes
    → OfOk Typed (decode_relay_cell p) × OfOk IsPayload (encode_relay rc)
relay_cells-Typed p rc h c d b = (decode_relay_cell-Typed p h, encode_relay-IsPayload rc c d b)
