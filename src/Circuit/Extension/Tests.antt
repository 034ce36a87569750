-- ===== src/Circuit/Extension/Tests.antt =====
-- Runs of the handshakes, and the witnesses.
use go_tor.Prelude.{
  ℕ, ◌+◌, ◌<◌, ◌≤◌, ◌≡◌, ◌≢◌, ◌↔◌, refl, List, [], ◌∷◌, ◌++◌, Option, none, some, Result, ok, err,
  false, length, take, replicate, be16, AreBytes, All, arith,
}
use go_tor.Security.Int.{pos}
use go_tor.Cell.Codec.{Cell, uint16_of}
use go_tor.Directory.{Relay, parse_consensus}
use go_tor.Circuit.Extension.{
  Extension, new_extension, set_target_relay, with_keys, create_first_hop, process_created2,
  cmd_create2, cmd_created2, done, panicked, failed, no_ephemeral_key, generate_handshake_data,
  build_extend2_data,
}
use go_tor.Circuit.Extension.Refused.{process_created2_panics}
use go_tor.Circuit.Extension.Handshake.{Finished, first_hop_exact}
use go_tor.Circuit.Extension.Keys.{consensus_keys_missing}

-- A handshake that yields 72 bytes whatever the response.
abbrev accepting : List ℕ → List ℕ → List ℕ → List ℕ → Option (List ℕ)
accepting response private onion identity = some (replicate 72 1)

abbrev ones : List ℕ
ones = replicate 32 1

abbrev started : Extension
started = record (new_extension 9) { ephemeral_private = some ones }

abbrev answer : Cell
answer = record { circ_id = 9; command = cmd_created2; payload = 0 ∷ 1 ∷ 5 ∷ [] }

abbrev hostile : Cell
hostile = record { circ_id = 9; command = cmd_created2; payload = 255 ∷ 255 ∷ 0 ∷ [] }

done_run : (process_created2 accepting answer started).1 ≡ done
unfolding process_created2
done_run = refl

unstarted_run : (process_created2 accepting answer (new_extension 9)).1 ≡ failed no_ephemeral_key
unfolding process_created2 new_extension
unstarted_run = refl

extend_run :
    build_extend2_data 2 (7 ∷ []) ≡ 1 ∷ 0 ∷ 6 ∷ 127 ∷ 0 ∷ 0 ∷ 1 ∷ 0 ∷ 0 ∷ 0 ∷ 2 ∷ 0 ∷ 1 ∷ 7 ∷ []
unfolding build_extend2_data go_tor.Security.Convert.safe_len_to_uint16
extend_run = refl

hostile_bytes : AreBytes hostile.payload
hostile_bytes = grind arith

process_created2_panics_example :
    ((process_created2 accepting hostile started).1 ≡ panicked)
    ↔ ((2 ≤ length hostile.payload) × (65534 ≤ uint16_of hostile.payload))
process_created2_panics_example =
    process_created2_panics accepting hostile started refl hostile_bytes

abbrev hop_cell : Cell
hop_cell = record {
  circ_id = (new_extension 9).circuit_id;
  command = cmd_create2;
  payload = 0 ∷ 2 ∷ 0 ∷ 84 ∷ ((take 20 ones ++ ones) ++ ones);
}

first_hop_exact_example :
    ((create_first_hop
        (some (ones, ones))
        none
        2
        (set_target_relay (with_keys ones ones) (new_extension 9))).1
      ≡ ok hop_cell)
    × ((create_first_hop
          (some (ones, ones))
          none
          2
          (set_target_relay (with_keys ones ones) (new_extension 9))).0.ephemeral_private
        ≡ some ones)
    × Finished
        (accepting (5 ∷ []) ones ones ones)
        (create_first_hop
          (some (ones, ones))
          none
          2
          (set_target_relay (with_keys ones ones) (new_extension 9))).0
        (process_created2 accepting
          (record {
            circ_id = (new_extension 9).circuit_id;
            command = cmd_created2;
            payload = be16 1 ++ ((5 ∷ []) ++ (0 ∷ []));
          })
          (create_first_hop
            (some (ones, ones))
            none
            2
            (set_target_relay (with_keys ones ones) (new_extension 9))).0)
first_hop_exact_example =
    first_hop_exact accepting ones ones ones ones (5 ∷ []) (0 ∷ []) none (new_extension 9) refl refl
      refl refl (omega arith)

abbrev entry : List ℕ
entry =
    114 ∷ 32 ∷ 97 ∷ 32 ∷ 70 ∷ 32 ∷ 100 ∷ 32 ∷ 49 ∷ 32 ∷ 50 ∷ 32 ∷ 51 ∷ 46 ∷ 52 ∷ 32 ∷ 57 ∷ 48 ∷ 32
    ∷ 56 ∷ 48 ∷ []

abbrev a_relay : Relay
a_relay = record {
  nickname = 97 ∷ [];
  fingerprint = 70 ∷ [];
  address = 51 ∷ 46 ∷ 52 ∷ [];
  or_port = pos 90;
  dir_port = pos 80;
  flags = [];
  identity_key = [];
  ntor_onion_key = [];
}

entry_run : parse_consensus (entry ∷ []) false ≡ ok (a_relay ∷ [])
unfolding parse_consensus go_tor.Prelude.bytes_eq go_tor.Text.scan_int
entry_run = refl

consensus_keys_missing_example :
    All
      (λ q.
        (generate_handshake_data
          (some (ones, ones))
          none
          2
          (set_target_relay (with_keys q.identity_key q.ntor_onion_key) (new_extension 9))).1
        ≡ ok (replicate 52 0 ++ ones))
      (a_relay ∷ [])
consensus_keys_missing_example =
    consensus_keys_missing (entry ∷ []) (a_relay ∷ []) ones ones none (new_extension 9) entry_run
      refl
