-- ===== src/Circuit/Extension.antt =====
-- pkg/circuit/extension.go: the handshakes that add hops to a circuit.
-- The key pair, the random bytes, and the calls of pkg/crypto are arguments. The cells that are built
-- are not sent by the source either: they are returned here beside the state.
pub mod Refused
pub mod Handshake
pub mod Keys
mod Tests
use go_tor.Prelude.{
  ℕ, ◌+◌, ◌-◌, ◌≡◌, ◌%◌, ◌^◌, Bool, true, false, not, List, [], ◌∷◌, ◌++◌, Option, none, some,
  Result, ok, err, ltb, ◌==◌, if◌then◌else◌, length, take, drop, replicate, be16, refuse_if, ◌>>=◌,
  ◌>>◌,
}
use go_tor.Security.Convert.{safe_len_to_uint16}
use go_tor.Cell.Codec.{Cell, uint16_of}
use go_tor.Cell.Relay.{RelayCell, copy_at, slice}

abbrev pub cmd_create2 : ℕ
cmd_create2 = 10

abbrev pub cmd_created2 : ℕ
cmd_created2 = 11

abbrev pub relay_extend2 : ℕ
relay_extend2 = 14

abbrev pub relay_extended2 : ℕ
relay_extended2 = 15

abbrev pub handshake_type_ntor : ℕ
handshake_type_ntor = 2

abbrev pub handshake_type_tap : ℕ
handshake_type_tap = 0

-- What `targetRelay` holds: nil, a value with the two keys, or one without them.
pub data Target : Type 0 where
  no_target without_keys : Target
  with_keys : List ℕ → List ℕ → Target

-- A nil slice is `none` where the source tests it.
pub record Extension : Type 0 where
  pub circuit_id : ℕ
  pub target_relay : Target
  pub ephemeral_private : Option (List ℕ)
  pub server_identity : List ℕ
  pub server_ntor_key : List ℕ

unfoldable pub new_extension : ℕ → Extension
new_extension circuit_id = record {
  circuit_id = circuit_id;
  target_relay = no_target;
  ephemeral_private = none;
  server_identity = [];
  server_ntor_key = [];
}

unfoldable pub set_target_relay : Target → Extension → Extension
set_target_relay t e = record e { target_relay = t }

pub data ExtensionError : Type 0 where
  no_target_set invalid_identity_length invalid_ntor_length no_keys : ExtensionError
  key_generation_failed random_failed unsupported_type data_too_large : ExtensionError
  unexpected_cell too_short incomplete no_ephemeral_key ntor_failed : ExtensionError
  insufficient_material derivation_failed : ExtensionError

unfoldable pub get_relay_keys : Target → Result ExtensionError (List ℕ × List ℕ)
get_relay_keys no_target = err no_target_set
get_relay_keys without_keys = err no_keys
get_relay_keys (with_keys identity ntor) = do
  refuse_if (not (length identity == 32)) invalid_identity_length
  refuse_if (not (length ntor == 32)) invalid_ntor_length
  ok (identity, ntor)

-- The keys, or zeros in place of them.
abbrev pub keys_or_zeros : Result ExtensionError (List ℕ × List ℕ) → List ℕ × List ℕ
keys_or_zeros (ok keys) = keys
keys_or_zeros (err _) = (replicate 32 0, replicate 32 0)

-- `make([]byte, 32)` with a copy.
abbrev pub in_32 : List ℕ → List ℕ
in_32 src = copy_at (replicate 32 0) 0 src

-- NODEID, KEYID and CLIENT_PK, copied into a buffer of 84 bytes.
unfoldable pub ntor_data : List ℕ → List ℕ → List ℕ → List ℕ
ntor_data identity ntor public =
    copy_at (copy_at (copy_at (replicate 84 0) 0 (take 20 identity)) 20 (take 32 ntor)) 52
      (take 32 public)

-- The private and the public half of a key pair.
abbrev pub KeyPair : Type 0
KeyPair = List ℕ × List ℕ

unfoldable pub ntor_handshake :
    Option KeyPair → Extension → Extension × Result ExtensionError (List ℕ)
unfolding get_relay_keys ntor_data
ntor_handshake pair e =
    let keys = keys_or_zeros (get_relay_keys e.target_relay) in
    let e1 : Extension = record e {
      server_identity = in_32 keys.0;
      server_ntor_key = in_32 keys.1;
    } in
    elim pair [
      | none ↦ (e1, err key_generation_failed)
      | some (private, public) ↦ (
        record e1 { ephemeral_private = some (in_32 private) },
        ok (ntor_data keys.0 keys.1 public),
      )
    ]

-- `random` is what rand.Read fills the 144 bytes with.
unfoldable pub generate_handshake_data :
    Option KeyPair → Option (List ℕ) → ℕ → Extension → Extension × Result ExtensionError (List ℕ)
unfolding ntor_handshake
generate_handshake_data pair random kind e =
    if kind == handshake_type_ntor
    then ntor_handshake pair e
    else if kind == handshake_type_tap
    then (e, elim random [ none ↦ err random_failed | some bytes ↦ ok bytes ])
    else (e, err unsupported_type)

-- The length as a uint16.
abbrev pub data_length : List ℕ → Result ExtensionError ℕ
data_length bytes = elim (safe_len_to_uint16 bytes) [ ok n ↦ ok n | err _ ↦ err data_too_large ]

unfoldable pub create2_cell : ℕ → ℕ → List ℕ → Result ExtensionError Cell
create2_cell circuit_id kind bytes = do
  n ← data_length bytes
  ok (record {
    circ_id = circuit_id;
    command = cmd_create2;
    payload = be16 kind ++ (be16 n ++ bytes);
  })

unfoldable pub create_first_hop :
    Option KeyPair → Option (List ℕ) → ℕ → Extension → Extension × Result ExtensionError Cell
unfolding generate_handshake_data create2_cell
create_first_hop pair random kind e =
    let (e1, r) = generate_handshake_data pair random kind e in
    (e1, r >>= create2_cell e.circuit_id kind)

-- One link specifier with the placeholder 127.0.0.1:0; nil where the length does not fit.
unfoldable pub build_extend2_data : ℕ → List ℕ → List ℕ
build_extend2_data kind bytes = elim (safe_len_to_uint16 bytes) [
  | err _ ↦ []
  | ok n ↦ 1 ∷ 0 ∷ 6 ∷ 127 ∷ 0 ∷ 0 ∷ 1 ∷ 0 ∷ 0 ∷ (be16 kind ++ (be16 n ++ bytes))
]

-- The fields that the source leaves out are zero.
unfoldable pub extend2_cell : ℕ → List ℕ → RelayCell
unfolding build_extend2_data
extend2_cell kind bytes = record {
  command = relay_extend2;
  recognized = 0;
  stream_id = 0;
  digest = 0 ∷ 0 ∷ 0 ∷ 0 ∷ [];
  length_field = 0;
  bytes = build_extend2_data kind bytes;
}

unfoldable pub extend_circuit :
    Option KeyPair → Option (List ℕ) → ℕ → Extension → Extension × Result ExtensionError RelayCell
unfolding generate_handshake_data extend2_cell
extend_circuit pair random kind e =
    let (e1, r) = generate_handshake_data pair random kind e in
    (e1, r >>= λ bytes. ok (extend2_cell kind bytes))

-- What a call comes to: nil, an error, or a panic of the slice expression.
pub data Outcome : Type 0 where
  done panicked : Outcome
  failed : ExtensionError → Outcome

-- `2+hlen`, on uint16.
abbrev pub response_end : List ℕ → ℕ
response_end payload = (2 + uint16_of payload) % 2 ^ 16

module _ (ntor : List ℕ → List ℕ → List ℕ → List ℕ → Option (List ℕ)) where
  abbrev pub with_material : Option (List ℕ) → Extension → Extension × Outcome
  with_material none e = (e, failed ntor_failed)
  with_material (some material) e =
      if ltb (length material) 72
      then (e, failed insufficient_material)
      else (record e { ephemeral_private = none }, done)

  abbrev pub with_response : List ℕ → Option (List ℕ) → Extension → Extension × Outcome
  with_response response none e = (e, failed no_ephemeral_key)
  with_response response (some private) e =
      with_material (ntor response private e.server_ntor_key e.server_identity) e

  -- A slice whose end is before its start panics.
  unfoldable pub process_payload : List ℕ → Extension → Extension × Outcome
  process_payload payload e =
      if ltb (length payload) 2
      then (e, failed too_short)
      else if ltb (length payload) (response_end payload)
      then (e, failed incomplete)
      else if ltb (response_end payload) 2
      then (e, panicked)
      else with_response (slice payload 2 (response_end payload)) e.ephemeral_private e

  unfoldable pub process_created2 : Cell → Extension → Extension × Outcome
  unfolding process_payload
  process_created2 c e =
      if c.command == cmd_created2 then process_payload c.payload e else (e, failed unexpected_cell)

  unfoldable pub process_extended2 : RelayCell → Extension → Extension × Outcome
  unfolding process_payload
  process_extended2 rc e =
      if rc.command == relay_extended2
      then process_payload rc.bytes e
      else (e, failed unexpected_cell)

-- `kdf` is crypto.DeriveKey; a result shorter than 72 bytes does not occur.
module _ (kdf : List ℕ → ℕ → Option (List ℕ)) where
  unfoldable pub derive_keys : List ℕ → Result ExtensionError (List ℕ × List ℕ)
  derive_keys secret = elim (kdf secret 72) [
    | none ↦ err derivation_failed
    | some km ↦ ok (slice km 40 56, slice km 56 72)
  ]
