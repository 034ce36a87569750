-- ===== src/Cell/Codec.antt =====
-- pkg/cell/cell.go: `Cell`, `Encode` and `DecodeCell`.
pub mod Bytes
pub mod RoundTrip
pub mod Typed
pub mod Sound
pub mod Fixed
pub mod Overflow
mod Tests
use go_tor.Prelude.{
  ℕ, ◌+◌, ◌-◌, ◌≤◌, ◌<◌, ◌^◌, Bool, true, false, List, [], ◌∷◌, Option, none, some, leb, ltb,
  if◌then◌else◌, length, replicate, Result, ok, err, be16, be32, of_be16, of_be32, AreBytes, IsByte,
}
use go_tor.Cell.Io.{Writer, write, read_full}
use go_tor.Security.Convert.{RangeError, safe_len_to_uint16}

abbrev pub circ_id_len : ℕ
circ_id_len = 4

abbrev pub cmd_len : ℕ
cmd_len = 1

abbrev pub payload_len : ℕ
payload_len = 509

abbrev pub cell_len : ℕ
cell_len = circ_id_len + cmd_len + payload_len

-- `type Command byte`, with the constants that other packages use.
abbrev pub cmd_relay : ℕ
cmd_relay = 3

pub record Cell : Type 0 where
  pub circ_id : ℕ  -- uint32
  pub command : ℕ  -- byte
  pub payload : List ℕ

abbrev pub is_variable_length : ℕ → Bool
is_variable_length c = leb 128 c

unfoldable pub new_cell : ℕ → ℕ → Cell
new_cell circ_id cmd = record { circ_id = circ_id; command = cmd; payload = [] }

pub data EncodeError : Type 0 where
  write_circ_id_failed write_command_failed payload_too_large write_length_failed : EncodeError
  write_payload_failed write_padding_failed : EncodeError

-- One `if _, err := w.Write(p); err != nil { return err }` and what follows it.
abbrev pub write_or :
    EncodeError
    → Writer
    → List ℕ
    → (Writer → Writer × Option EncodeError)
    → Writer × Option EncodeError
write_or e w p next = let r = write w p in elim r.1 [ true ↦ next r.0 | false ↦ (r.0, some e) ]

-- The padding of a fixed-size cell; a payload that is too long gets none.
encode_padding : Cell → Writer → Writer × Option EncodeError
encode_padding c w =
    let padding = payload_len - length c.payload in
    if ltb 0 padding
    then write_or write_padding_failed w (replicate padding 0) (λ v. (v, none))
    else (w, none)

encode_payload : Cell → Writer → Writer × Option EncodeError
unfolding encode_padding
encode_payload c w =
    write_or write_payload_failed w c.payload
      (λ v. if is_variable_length c.command then (v, none) else encode_padding c v)

encode_length : Cell → Writer → Writer × Option EncodeError
encode_length c w =
    if is_variable_length c.command
    then elim (safe_len_to_uint16 c.payload) [
      | err e ↦ (w, some payload_too_large)
      | ok n ↦ write_or write_length_failed w (be16 n) (λ v. encode_payload c v)
    ]
    else encode_payload c w

-- The error is `none` when Go returns nil.
unfoldable pub encode : Cell → Writer → Writer × Option EncodeError
unfolding encode_length encode_payload
encode c w =
    write_or write_circ_id_failed w (be32 c.circ_id)
      (λ v. write_or write_command_failed v (c.command ∷ []) (λ u. encode_length c u))

pub data DecodeError : Type 0 where
  read_circ_id_failed read_command_failed read_length_failed : DecodeError
  read_variable_payload_failed read_fixed_payload_failed : DecodeError

-- A read that must succeed, and what follows it.
abbrev pub read_or :
    {A : Type 0}
    → DecodeError
    → ℕ
    → List ℕ
    → (List ℕ → List ℕ → Result DecodeError A)
    → Result DecodeError A
read_or e n r next = elim (read_full n r) [ none ↦ err e | some (p, rest) ↦ next p rest ]

-- The integers that `binary.Read` fills in; it has read as many bytes as they take.
abbrev pub uint32_of : List ℕ → ℕ
uint32_of (a ∷ b ∷ c ∷ d ∷ _) = of_be32 a b c d
uint32_of _ = 0

abbrev pub uint16_of : List ℕ → ℕ
uint16_of (a ∷ b ∷ _) = of_be16 a b
uint16_of _ = 0

abbrev pub byte_of : List ℕ → ℕ
byte_of (a ∷ _) = a
byte_of _ = 0

pub decode_payload : ℕ → ℕ → List ℕ → Result DecodeError (Cell × List ℕ)
decode_payload id cmd r =
    if is_variable_length cmd
    then read_or read_length_failed 2 r (λ l s.
      read_or read_variable_payload_failed (uint16_of l) s
        (λ p rest. ok (record { circ_id = id; command = cmd; payload = p }, rest)))
    else read_or read_fixed_payload_failed payload_len r
        (λ p rest. ok (record { circ_id = id; command = cmd; payload = p }, rest))

-- The result carries what is left of the input.
unfoldable pub decode_cell : List ℕ → Result DecodeError (Cell × List ℕ)
unfolding decode_payload
decode_cell r =
    read_or read_circ_id_failed 4 r
      (λ i s. read_or read_command_failed 1 s (λ c t. decode_payload (uint32_of i) (byte_of c) t))
