-- ===== src/Directory/Tests.antt =====
-- Runs of the consensus parser, and the witness.
use go_tor.Prelude.{
  ℕ, ◌≡◌, refl, List, [], ◌∷◌, map, none, some, ok, err, false, if◌then◌else◌, ltb, ◌*◌, ◌/◌,
}
use go_tor.Security.Int.{pos}
use go_tor.Text.{scan_int}
use go_tor.Directory.{
  Relay, line_of, parse_consensus, excessive_malformed, read_error, fetch_consensus,
}
use go_tor.Directory.Entries.{entries, routers, malformed}
use go_tor.Directory.Consensus.{parse_consensus_exact}

abbrev entry_a : List ℕ
entry_a =
    114 ∷ 32 ∷ 97 ∷ 32 ∷ 70 ∷ 32 ∷ 100 ∷ 32 ∷ 49 ∷ 32 ∷ 50 ∷ 32 ∷ 51 ∷ 46 ∷ 52 ∷ 32 ∷ 57 ∷ 48 ∷ 32
    ∷ 56 ∷ 48 ∷ []

abbrev flags_a : List ℕ
flags_a = 115 ∷ 32 ∷ 71 ∷ 117 ∷ 97 ∷ 114 ∷ 100 ∷ 32 ∷ 82 ∷ 117 ∷ 110 ∷ 110 ∷ 105 ∷ 110 ∷ 103 ∷ []

abbrev short_entry : List ℕ
short_entry = 114 ∷ 32 ∷ 98 ∷ []

abbrev flags_b : List ℕ
flags_b = 115 ∷ 32 ∷ 69 ∷ 120 ∷ 105 ∷ 116 ∷ []

abbrev entry_c : List ℕ
entry_c = 114 ∷ 32 ∷ 99 ∷ 32 ∷ 71 ∷ 32 ∷ 100 ∷ 32 ∷ 49 ∷ 32 ∷ 50 ∷ 32 ∷ 53 ∷ 32 ∷ 120 ∷ 32 ∷ 55 ∷ []

abbrev relay : List ℕ → List ℕ → List ℕ → List (List ℕ) → ℕ → ℕ → Relay
relay nickname fp address flags or dir = record {
  nickname = nickname;
  fingerprint = fp;
  address = address;
  or_port = pos or;
  dir_port = pos dir;
  flags = flags;
  identity_key = [];
  ntor_onion_key = [];
}

good_run :
    parse_consensus (entry_a ∷ flags_a ∷ entry_c ∷ []) false
    ≡ ok (
        relay
          (97 ∷ [])
          (70 ∷ [])
          (51 ∷ 46 ∷ 52 ∷ [])
          ((71 ∷ 117 ∷ 97 ∷ 114 ∷ 100 ∷ []) ∷ (82 ∷ 117 ∷ 110 ∷ 110 ∷ 105 ∷ 110 ∷ 103 ∷ []) ∷ [])
          90
          80
        ∷ relay (99 ∷ []) (71 ∷ []) (53 ∷ []) [] 0 7
        ∷ [])
unfolding parse_consensus go_tor.Prelude.bytes_eq scan_int
good_run = refl

malformed_run : parse_consensus (entry_a ∷ short_entry ∷ []) false ≡ err excessive_malformed
unfolding parse_consensus go_tor.Prelude.bytes_eq
malformed_run = refl

-- Eleven entries, of which the second is malformed: its flags go to the first relay, which is
-- reported twice.
abbrev eleven : List (List ℕ)
eleven =
    entry_a ∷ flags_a ∷ short_entry ∷ flags_b ∷ entry_c ∷ entry_c ∷ entry_c ∷ entry_c ∷ entry_c
    ∷ entry_c ∷ entry_c ∷ entry_c ∷ entry_c ∷ []

parse_consensus_exact_example : parse_consensus eleven false ≡ (
    let ls = map line_of eleven in
    if false
    then err read_error
    else if ltb (routers ls * 10 / 100) (malformed ls)
    then err excessive_malformed
    else ok (entries ls))
parse_consensus_exact_example = parse_consensus_exact eleven false

abbrev first_twice : List Relay → List (List ℕ) × List (List ℕ) × List ℕ
first_twice (a ∷ b ∷ rs) = (a.flags, b.flags, b.fingerprint)
first_twice _ = ([], [], [])

misattributed_run :
    elim (parse_consensus eleven false) [ ok rs ↦ first_twice rs | err _ ↦ ([], [], []) ]
    ≡ ((69 ∷ 120 ∷ 105 ∷ 116 ∷ []) ∷ [], (69 ∷ 120 ∷ 105 ∷ 116 ∷ []) ∷ [], 70 ∷ [])
unfolding parse_consensus go_tor.Prelude.bytes_eq
misattributed_run = refl

fetch_run :
    fetch_consensus none (
      none
      ∷ some (record { status_code = 404; body = none })
      ∷ some (record { status_code = 200; body = some ([], false) })
      ∷ [])
    ≡ ok []
unfolding fetch_consensus
fetch_run = refl
