-- ===== src/Circuit/Extension/Handshake.antt =====
-- What the handshakes send, accept and refuse.
use go_tor.Prelude.{
  ℕ, suc, ◌+◌, ◌-◌, ◌<◌, ◌^◌, ◌/◌, ◌%◌, ◌≡◌, refl, sym, subst, ap, ◌∙◌, ◌≤◌, ◌⊎◌, inl, inr, true,
  false, Bool-cases, List, [], ◌∷◌, ◌++◌, append-nil, append_assoc, Option, none, some, Result, ok,
  err, ltb, ◌==◌, length, length-append, length-take, length-replicate, take, drop, take_all,
  take-append_exact, drop-append_exact, drop-append_add, replicate, replicate_split, be16, of_be16,
  of_be16-be16, ◌>>=◌, arith,
}
use go_tor.Cell.Codec.{Cell}
use go_tor.Cell.Relay.{copy_at}
use go_tor.Security.Int.{pos}
use go_tor.Security.Convert.{safe_len_to_uint16, safe_int_to_uint16}
use go_tor.Circuit.Extension.{
  Extension, with_keys, set_target_relay, get_relay_keys, in_32, ntor_data, ExtensionError,
  ntor_handshake, generate_handshake_data, create_first_hop, create2_cell, cmd_create2,
  cmd_created2, data_too_large, Outcome, done, failed, insufficient_material, ntor_failed,
  with_material, with_response, process_payload, process_created2,
}

-- A copy into zeros behind what is already written.
copy_at-append :
    (a s : List ℕ) (k m r : ℕ)
    → length a ≡ k
    → length s ≡ m
    → copy_at (a ++ replicate (m + r) 0) k s ≡ (a ++ s) ++ replicate r 0
copy_at-append a s k m r h l =
    let zeros = replicate (m + r) 0 in
    let n : length (a ++ zeros) - k ≡ m + r =
      omega (arith, h, length-append a zeros, length-replicate {A = ℕ} (m + r) 0) in
    let x : take k (a ++ zeros) ≡ a = take-append_exact k a zeros h in
    let y : take (length (a ++ zeros) - k) s ≡ s = take_all _ s (omega (arith, n, l)) in
    let z : drop (k + length s) (a ++ zeros) ≡ replicate r 0 =
      drop-append_add k (length s) a zeros h
      ∙ ap (λ t. drop (length s) t) (replicate_split m r 0)
      ∙ drop-append_exact (length s) (replicate m 0) (replicate r 0)
          (length-replicate {A = ℕ} m 0 ∙ sym l) in
    rw (x, y, z) (sym (append_assoc a s (replicate r 0)))

in_32-exact : (src : List ℕ) → length src ≡ 32 → in_32 src ≡ src
in_32-exact src h = copy_at-append [] src 0 32 0 refl h ∙ append-nil src

pub ntor_data-exact :
    (identity ntor public : List ℕ)
    → length identity ≡ 32
    → length ntor ≡ 32
    → length public ≡ 32
    → ntor_data identity ntor public ≡ (take 20 identity ++ ntor) ++ public
unfolding ntor_data
ntor_data-exact identity ntor public a b c =
    let i = take 20 identity in
    let li : length i ≡ 20 = omega (arith, length-take 20 identity, a) in
    let n : take 32 ntor ≡ ntor = take_all 32 ntor (omega (arith, b)) in
    let p : take 32 public ≡ public = take_all 32 public (omega (arith, c)) in
    let l2 : length (i ++ ntor) ≡ 52 = omega (arith, length-append i ntor, li, b) in
    rw (n, p)
      (ap (λ t. copy_at (copy_at t 20 ntor) 52 public) (copy_at-append [] i 0 20 64 refl li)
        ∙ ap (λ t. copy_at t 52 public) (copy_at-append i ntor 20 32 32 li b)
        ∙ copy_at-append (i ++ ntor) public 52 32 0 l2 c
        ∙ append-nil _)

get_relay_keys_ok :
    (identity ntor : List ℕ)
    → length identity ≡ 32
    → length ntor ≡ 32
    → get_relay_keys (with_keys identity ntor) ≡ ok (identity, ntor)
unfolding get_relay_keys
get_relay_keys_ok identity ntor a b =
    let x : (length identity == 32) ≡ true = ground arith in
    let y : (length ntor == 32) ≡ true = ground arith in rw (x, y) refl

create2_cell-84 :
    (circuit_id : ℕ) (bytes : List ℕ)
    → length bytes ≡ 84
    → create2_cell circuit_id 2 bytes
      ≡ ok
          (record { circ_id = circuit_id; command = cmd_create2; payload = 0 ∷ 2 ∷ 0 ∷ 84 ∷ bytes })
unfolding create2_cell safe_len_to_uint16 safe_int_to_uint16
create2_cell-84 circuit_id bytes h =
    let cell : ℕ → Result ExtensionError Cell = λ n. ok (record {
      circ_id = circuit_id;
      command = cmd_create2;
      payload = be16 2 ++ (be16 n ++ bytes);
    }) in
    ap
      (λ n. elim (safe_int_to_uint16 (pos n)) [ ok m ↦ ok m | err _ ↦ err data_too_large ] >>= cell)
      h

-- The state and the cell after the first hop of a relay whose keys have the right length.
create_first_hop-exact :
    (identity ntor private public : List ℕ) (random : Option (List ℕ)) (e : Extension)
    → length identity ≡ 32
    → length ntor ≡ 32
    → length private ≡ 32
    → length public ≡ 32
    → create_first_hop
        (some (private, public))
        random
        2
        (set_target_relay (with_keys identity ntor) e)
      ≡ (
        record (set_target_relay (with_keys identity ntor) e) {
          server_identity = identity;
          server_ntor_key = ntor;
          ephemeral_private = some private;
        },
        ok (record {
          circ_id = e.circuit_id;
          command = cmd_create2;
          payload = 0 ∷ 2 ∷ 0 ∷ 84 ∷ ((take 20 identity ++ ntor) ++ public);
        }),
      )
unfolding create_first_hop generate_handshake_data ntor_handshake set_target_relay
create_first_hop-exact identity ntor private public random e a b c d =
    let l : length ((take 20 identity ++ ntor) ++ public) ≡ 84 = omega (
      arith,
      length-append (take 20 identity ++ ntor) public,
      length-append (take 20 identity) ntor,
      length-take 20 identity,
      a,
      b,
      d,
    ) in
    rw
      (
        get_relay_keys_ok identity ntor a b,
        in_32-exact identity a,
        in_32-exact ntor b,
        in_32-exact private c,
        ntor_data-exact identity ntor public a b d,
        create2_cell-84 e.circuit_id ((take 20 identity ++ ntor) ++ public) l,
      )
      refl

module _ (ntor : List ℕ → List ℕ → List ℕ → List ℕ → Option (List ℕ)) where
  -- A cell whose payload holds a response of fewer than 65534 bytes, with anything behind it.
  process_created2-response :
      (id : ℕ) (response pad : List ℕ) (e : Extension)
      → length response < 65534
      → process_created2 ntor
          (record {
            circ_id = id;
            command = cmd_created2;
            payload = be16 (length response) ++ (response ++ pad);
          })
          e
        ≡ with_response ntor response e.ephemeral_private e
  unfolding process_created2 process_payload
  process_created2-response id response pad e h =
      let n : of_be16 (length response / 2 ^ 8 % 256) (length response % 256) ≡ length response =
        of_be16-be16 (length response) (omega arith) in
      let m : (2 + length response) % 2 ^ 16 ≡ 2 + length response = omega arith in
      let t : take (2 + length response - 2) (response ++ pad) ≡ response =
        take-append_exact (2 + length response - 2) response pad (omega arith) in
      let x : ltb (suc (suc (length (response ++ pad)))) (2 + length response) ≡ false =
        ground (arith, length-append response pad) in
      let y : ltb (2 + length response) 2 ≡ false = ground arith in
      let z : ltb (suc (suc (length (response ++ pad)))) 2 ≡ false = ground arith in
      rw (n, m, x, y, z, t) refl

-- How a handshake ends with what the key exchange yields: done, with the private half forgotten, on 72
-- bytes or more; failed on fewer, and where the exchange fails, with the state as it was.
abbrev pub Finished : Option (List ℕ) → Extension → Extension × Outcome → Type 0
Finished o e out =
    ((m : List ℕ) × (o ≡ some m)
      × (72 ≤ length m)
      × (out ≡ (record e { ephemeral_private = none }, done)))
    ⊎ ((m : List ℕ) × (o ≡ some m) × (length m < 72) × (out ≡ (e, failed insufficient_material)))
    ⊎ (o ≡ none) × (out ≡ (e, failed ntor_failed))

with_material-Finished :
    (ntor : List ℕ → List ℕ → List ℕ → List ℕ → Option (List ℕ)) (o : Option (List ℕ))
    (e : Extension)
    → Finished o e (with_material ntor o e)
with_material-Finished ntor none e = inr (inr (refl, refl))
with_material-Finished ntor (some m) e = elim (Bool-cases (ltb (length m) 72)) [
  | inl s ↦ inr (inl (m, refl, ground arith, rw s refl))
  | inr s ↦ inl (m, refl, ground arith, rw s refl)
]

-- With a relay whose keys are 32 bytes each, the CREATE2 cell carries type and length, the first 20
-- bytes of its identity, its onion key and the public half of the new key pair, whose private half is
-- kept; and on a CREATED2 cell with a response of fewer than 65534 bytes, with anything behind it, the
-- key exchange takes the response, the private half and these two keys: where it yields 72 bytes of
-- material or more the handshake succeeds and the private half is forgotten, and where it yields fewer
-- or fails, the handshake fails with an error of its own and the state stays as it was.
pub first_hop_exact :
    (ntor : List ℕ → List ℕ → List ℕ → List ℕ → Option (List ℕ))
    (identity onion private public response pad : List ℕ) (random : Option (List ℕ)) (e : Extension)
    → length identity ≡ 32
    → length onion ≡ 32
    → length private ≡ 32
    → length public ≡ 32
    → length response < 65534
    → let first =
        create_first_hop
          (some (private, public))
          random
          2
          (set_target_relay (with_keys identity onion) e) in
      let answer : Cell = record {
        circ_id = e.circuit_id;
        command = cmd_created2;
        payload = be16 (length response) ++ (response ++ pad);
      } in
      (first.1
        ≡ ok (record {
          circ_id = e.circuit_id;
          command = cmd_create2;
          payload = 0 ∷ 2 ∷ 0 ∷ 84 ∷ ((take 20 identity ++ onion) ++ public);
        }))
      × (first.0.ephemeral_private ≡ some private)
      × Finished
          (ntor response private onion identity)
          first.0
          (process_created2 ntor answer first.0)
first_hop_exact ntor identity onion private public response pad random e a b c d l =
    let f = create_first_hop-exact identity onion private public random e a b c d in
    (
      ap (λ x. x.1) f,
      ap (λ x. x.0.ephemeral_private) f,
      subst
          (λ x. Finished (ntor response private onion identity) x (
            process_created2 ntor
              (record {
                circ_id = e.circuit_id;
                command = cmd_created2;
                payload = be16 (length response) ++ (response ++ pad);
              })
              x))
          (sym (ap (λ x. x.0) f))
          (subst (Finished (ntor response private onion identity) _)
            (sym (process_created2-response ntor e.circuit_id response pad _ l))
            (with_material-Finished ntor (ntor response private onion identity) _)),
    )
