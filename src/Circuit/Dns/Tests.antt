-- ===== src/Circuit/Dns/Tests.antt =====
-- Runs of the parser of RESOLVED cells, and the witness.
use go_tor.Prelude.{
  ℕ, ◌≡◌, refl, List, [], ◌∷◌, ◌++◌, replicate, some, ok, err, length, ◌==◌, if◌then◌else◌, All,
  AreBytes, arith,
}
use go_tor.Cell.Relay.{new_relay_cell}
use go_tor.Circuit.Dns.{
  parse_resolved_cell, await_resolved, empty_data, incomplete_data, unexpected_command, failed,
}
use go_tor.Circuit.Dns.Answers.{
  Answer, IsAnswer, IsRest, encode_answers, first_answer, parse_resolved_cell_exact,
}

-- An unknown record, then the address 1.2.3.4 for 60 seconds, then one byte.
abbrev cell_bytes : List ℕ
cell_bytes = 9 ∷ 1 ∷ 7 ∷ 0 ∷ 0 ∷ 0 ∷ 1 ∷ 4 ∷ 4 ∷ 1 ∷ 2 ∷ 3 ∷ 4 ∷ 0 ∷ 0 ∷ 0 ∷ 60 ∷ 5 ∷ []

address_run :
    parse_resolved_cell cell_bytes
    ≡ ok (record {
      kind = 4;
      ttl = 60;
      addresses = (replicate 10 0 ++ (255 ∷ 255 ∷ 1 ∷ 2 ∷ 3 ∷ 4 ∷ [])) ∷ [];
      hostname = [];
      error = 0;
    })
unfolding parse_resolved_cell
address_run = refl

cut_off_run : parse_resolved_cell (4 ∷ 4 ∷ 1 ∷ []) ≡ err incomplete_data
unfolding parse_resolved_cell
cut_off_run = refl

error_run :
    await_resolved (some (new_relay_cell 0 12 (240 ∷ 1 ∷ 3 ∷ 0 ∷ 0 ∷ 0 ∷ 9 ∷ [])))
    ≡ err (failed (record { kind = 240; ttl = 9; addresses = []; hostname = []; error = 3 }))
unfolding await_resolved new_relay_cell
error_run = refl

-- Whatever cell is next on the circuit is taken.
other_run : await_resolved (some (new_relay_cell 7 2 (1 ∷ []))) ≡ err unexpected_command
unfolding await_resolved new_relay_cell
other_run = refl

all_bytes : AreBytes cell_bytes
all_bytes = grind arith

parse_resolved_cell_exact_example :
    (xs : List Answer) × (rest : List ℕ) × All IsAnswer xs
    × IsRest rest
    × (cell_bytes ≡ encode_answers xs ++ rest)
    × (parse_resolved_cell cell_bytes
        ≡ (if length cell_bytes == 0 then err empty_data else first_answer xs rest))
parse_resolved_cell_exact_example = parse_resolved_cell_exact cell_bytes all_bytes
