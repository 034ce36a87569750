-- ===== src/Cell/Relay/RoundTrip.antt =====
-- Relay cells through `encode_relay` and `decode_relay_cell`.
use go_tor.Prelude.{
  ℕ, zero, suc, ◌+◌, ◌-◌, ◌/◌, ◌%◌, ◌≤◌, ◌<◌, ◌^◌, ◌≡◌, refl, sym, ap, ◌∙◌, false, List, [], ◌∷◌,
  ◌++◌, ok, err, ltb, lt→ltb, if◌then◌else◌, length, take, replicate, be16, of_be16, arith, ◌>>=◌,
  take-append_exact, take_all, drop-append_exact, drop-append_add, ap₂, replicate_split,
  length-append, length-replicate, of_be16-be16, Bool-cases, inl, inr,
}
use go_tor.Cell.Codec.{payload_len}
use go_tor.Cell.Codec.Bytes.{length_fits}
use go_tor.Cell.Relay.{
  RelayCell, payload_too_large, max_data_len, encode_relay, decode_relay_cell, new_relay_cell,
  length_exceeds_maximum, length_exceeds_payload, copy_at,
}

-- The layout of tor-spec.txt section 6.1.
abbrev pub relay_wire : RelayCell → List ℕ
relay_wire rc =
    rc.command
    ∷ (be16 rc.recognized
        ++ (be16 rc.stream_id
            ++ (rc.digest
                ++ (be16 rc.length_field
                    ++ (rc.bytes ++ replicate (max_data_len - length rc.bytes) 0)))))

-- The fields are in the range of their Go types, and `Length` is the length of `Data`.
pub record IsRelayCell (rc : RelayCell) : Type 0 where
  pub command_range : rc.command < 256
  pub recognized_range : rc.recognized < 2 ^ 16
  pub stream_range : rc.stream_id < 2 ^ 16
  pub digest_length : length rc.digest ≡ 4
  pub length_exact : rc.length_field ≡ length rc.bytes

-- A copy over a stretch of the same length replaces it.
copy_exact :
    (at : ℕ) (a src b c : List ℕ)
    → length a ≡ at
    → length b ≡ length src
    → copy_at (a ++ (b ++ c)) at src ≡ a ++ (src ++ c)
copy_exact at a src b c ha hb = ap₂ ◌++◌ (take-append_exact at a (b ++ c) ha) (
    ap₂ ◌++◌
      (take_all (length (a ++ (b ++ c)) - at) src
        (omega (arith, length-append a (b ++ c), length-append b c)))
      (drop-append_add at (length src) a (b ++ c) ha ∙ drop-append_exact (length src) b c hb))

-- The buffer before the data is written.
header_written :
    (cmd rec sid d0 d1 d2 d3 len : ℕ)
    → let p1 = copy_at (replicate payload_len 0) 0 (cmd ∷ []) in
      let p2 = copy_at p1 1 (be16 rec) in
      let p3 = copy_at p2 3 (be16 sid) in
      let p4 = copy_at p3 5 (d0 ∷ d1 ∷ d2 ∷ d3 ∷ []) in
      copy_at p4 9 (be16 len)
      ≡ cmd
        ∷ (be16 rec ++ (be16 sid ++ (d0 ∷ d1 ∷ d2 ∷ d3 ∷ (be16 len ++ replicate max_data_len 0))))
header_written cmd rec sid d0 d1 d2 d3 len =
    let z = replicate max_data_len zero in
    let d = d0 ∷ d1 ∷ d2 ∷ d3 ∷ [] in
    let f5 = λ (p : List ℕ). copy_at p 9 (be16 len) in
    let f4 = λ (p : List ℕ). f5 (copy_at p 5 d) in
    let f3 = λ (p : List ℕ). f4 (copy_at p 3 (be16 sid)) in
    let f2 = λ (p : List ℕ). f3 (copy_at p 1 (be16 rec)) in
    let h1 = cmd ∷ [] in
    let h2 = cmd ∷ be16 rec in
    let h3 = cmd ∷ (be16 rec ++ be16 sid) in
    let h4 = cmd ∷ (be16 rec ++ (be16 sid ++ d)) in
    ap f2 (copy_exact 0 [] h1 (0 ∷ []) (replicate 10 0 ++ z) refl refl)
    ∙ ap f3 (copy_exact 1 h1 (be16 rec) (0 ∷ 0 ∷ []) (replicate 8 0 ++ z) refl refl)
    ∙ ap f4 (copy_exact 3 h2 (be16 sid) (0 ∷ 0 ∷ []) (replicate 6 0 ++ z) refl refl)
    ∙ ap f5 (copy_exact 5 h3 d (0 ∷ 0 ∷ 0 ∷ 0 ∷ []) (replicate 2 0 ++ z) refl refl)
    ∙ copy_exact 9 h4 (be16 len) (0 ∷ 0 ∷ []) z refl refl

-- The same buffer with the data in it.
data_written :
    (h bytes : List ℕ)
    → length h ≡ 11
    → length bytes ≤ max_data_len
    → copy_at (h ++ replicate max_data_len 0) 11 bytes
      ≡ h ++ (bytes ++ replicate (max_data_len - length bytes) 0)
data_written h bytes hh hb =
    let e : max_data_len ≡ length bytes + (max_data_len - length bytes) = omega arith in
    ap (λ t. copy_at (h ++ t) 11 bytes)
      (ap (λ k. replicate k zero) e
        ∙ replicate_split (length bytes) (max_data_len - length bytes) zero)
    ∙ copy_exact 11 h bytes (replicate (length bytes) 0) (replicate (max_data_len - length bytes) 0)
        hh (length-replicate (length bytes) zero)

-- A list of four is its four members.
four : (d : List ℕ) → length d ≡ 4 → (a b c e : ℕ) × (d ≡ a ∷ b ∷ c ∷ e ∷ [])
four [] h = absurd (omega arith)
four (a ∷ []) h = absurd (omega arith)
four (a ∷ b ∷ []) h = absurd (omega arith)
four (a ∷ b ∷ c ∷ []) h = absurd (omega arith)
four (a ∷ b ∷ c ∷ e ∷ []) h = (a, b, c, e, refl)
four (a ∷ b ∷ c ∷ e ∷ f ∷ r) h = absurd (omega arith)

encode_four :
    (rc : RelayCell) (a b c d : ℕ)
    → rc.digest ≡ a ∷ b ∷ c ∷ d ∷ []
    → length rc.bytes ≤ max_data_len
    → encode_relay rc ≡ ok (relay_wire rc)
unfolding encode_relay
encode_four rc a b c d h fits =
    let small : ltb max_data_len (length rc.bytes) ≡ false = ground arith in
    rw (small, h)
      (ap ok (
        ap (λ t. copy_at t 11 rc.bytes)
          (header_written rc.command rc.recognized rc.stream_id a b c d rc.length_field)
        ∙ data_written
            (rc.command
              ∷ (be16 rc.recognized
                  ++ (be16 rc.stream_id ++ (a ∷ b ∷ c ∷ d ∷ be16 rc.length_field))))
            rc.bytes refl fits))

-- A relay cell whose data fits is encoded in the layout of the specification, padded to 509 bytes;
-- one whose data is longer than 498 bytes is refused.
pub encode_relay_exact :
    (rc : RelayCell)
    → IsRelayCell rc
    → encode_relay rc
      ≡ (if ltb max_data_len (length rc.bytes) then err payload_too_large else ok (relay_wire rc))
encode_relay_exact rc h = elim (Bool-cases (ltb max_data_len (length rc.bytes))) [
  | inl big ↦ rw big (unfold encode_relay in rw big)
  | inr small ↦
      let (a, b, c, d, e) = four rc.digest h.digest_length in
      rw small (encode_four rc a b c d e (ground arith))
]

pub length-relay_wire :
    (rc : RelayCell)
    → IsRelayCell rc
    → length rc.bytes ≤ max_data_len
    → length (relay_wire rc) ≡ payload_len
length-relay_wire rc h fits = omega (
  arith,
  h.digest_length,
  length-append rc.digest
      (be16 rc.length_field ++ (rc.bytes ++ replicate (max_data_len - length rc.bytes) 0)),
  length-append rc.bytes (replicate (max_data_len - length rc.bytes) 0),
  length-replicate (max_data_len - length rc.bytes) zero,
)

take_when_some : (n : ℕ) (xs : List ℕ) → (if ltb 0 n then take (11 + n - 11) xs else []) ≡ take n xs
take_when_some n xs = let e : 11 + n - 11 ≡ n = omega arith in rw e (cases n)
  where
    cases : (k : ℕ) → (if ltb 0 k then take k xs else []) ≡ take k xs
    cases zero = refl
    cases (suc k) = rw (lt→ltb 0 (suc k) (omega arith))

-- Decoding a payload of a header and any bytes after it: refused where the length field passes 498
-- or the bytes that are there, and otherwise the fields of the header with as many data bytes as
-- the length field says.
pub decode_relay_cell_layout :
    (cmd r0 r1 s0 s1 d0 d1 d2 d3 l0 l1 : ℕ) (rest : List ℕ)
    → decode_relay_cell (cmd ∷ r0 ∷ r1 ∷ s0 ∷ s1 ∷ d0 ∷ d1 ∷ d2 ∷ d3 ∷ l0 ∷ l1 ∷ rest) ≡ (
        if ltb max_data_len (of_be16 l0 l1)
        then err length_exceeds_maximum
        else if ltb (length rest) (of_be16 l0 l1)
        then err length_exceeds_payload
        else ok (record {
          command = cmd;
          recognized = of_be16 r0 r1;
          stream_id = of_be16 s0 s1;
          digest = d0 ∷ d1 ∷ d2 ∷ d3 ∷ [];
          length_field = of_be16 l0 l1;
          bytes = take (of_be16 l0 l1) rest;
        }))
unfolding decode_relay_cell
decode_relay_cell_layout cmd r0 r1 s0 s1 d0 d1 d2 d3 l0 l1 rest =
    ground (arith, take_when_some (of_be16 l0 l1) rest)

decode_four :
    (rc : RelayCell) (a b c d : ℕ)
    → rc.digest ≡ a ∷ b ∷ c ∷ d ∷ []
    → IsRelayCell rc
    → length rc.bytes ≤ max_data_len
    → decode_relay_cell (relay_wire rc) ≡ ok rc
decode_four rc a b c d e h fits =
    let zeros = replicate (max_data_len - length rc.bytes) zero in
    let n : ltb max_data_len rc.length_field ≡ false = ground (arith, h.length_exact) in
    let m : ltb (length (rc.bytes ++ zeros)) rc.length_field ≡ false =
      ground (arith, h.length_exact, length-append rc.bytes zeros) in
    rw e (
      decode_relay_cell_layout rc.command (rc.recognized / 2 ^ 8 % 256) (rc.recognized % 256)
        (rc.stream_id / 2 ^ 8 % 256) (rc.stream_id % 256) a b c d (rc.length_field / 2 ^ 8 % 256)
        (rc.length_field % 256) (rc.bytes ++ zeros)
      ∙ rw (
        of_be16-be16 rc.recognized h.recognized_range,
        of_be16-be16 rc.stream_id h.stream_range,
        of_be16-be16 rc.length_field (omega arith),
        n,
        m,
        take-append_exact rc.length_field rc.bytes zeros (sym h.length_exact),
      ))

-- A well-formed relay cell whose data fits survives encoding and decoding unchanged.
pub decode_relay_cell-encode_relay :
    (rc : RelayCell)
    → IsRelayCell rc
    → length rc.bytes ≤ max_data_len
    → (encode_relay rc >>= decode_relay_cell) ≡ ok rc
decode_relay_cell-encode_relay rc h fits =
    let (a, b, c, d, e) = four rc.digest h.digest_length in
    rw (encode_four rc a b c d e fits) (decode_four rc a b c d e h fits)

-- A cell made by the constructor is well-formed as long as its data is no longer than 65535 bytes.
pub new_relay_cell-IsRelayCell :
    (sid cmd : ℕ) (bytes : List ℕ)
    → sid < 2 ^ 16
    → cmd < 256
    → length bytes < 2 ^ 16
    → IsRelayCell (new_relay_cell sid cmd bytes)
unfolding new_relay_cell
new_relay_cell-IsRelayCell sid cmd bytes hs hc hb = rw (length_fits bytes (ground arith)) (record {
  command_range = hc;
  recognized_range = omega arith;
  stream_range = hs;
  digest_length = refl;
  length_exact = refl;
})
