-- ===== src/Directory.antt =====
-- pkg/directory/directory.go: fetching and reading a consensus.
-- A line is its bytes, in ASCII. Relays are shared by pointer, so the parser's state has a heap of
-- them. The calls of net/http and the decompressors come in as their results.
pub mod Entries
pub mod Consensus
mod Tests
use go_tor.Prelude.{
  ℕ, ◌+◌, ◌-◌, ◌*◌, ◌/◌, Bool, true, false, ◌&&◌, ◌||◌, List, [], ◌∷◌, ◌++◌, Option, none, some,
  Result, ok, err, ltb, leb, ◌==◌, bytes_eq, if◌then◌else◌, length, take, drop, get_elem?, set,
  refuse_if, ◌>>◌,
}
use go_tor.Security.Int.{ℤ, pos}
use go_tor.Text.{fields, scan_int}
use go_tor.Circuit.Core.{second}

pub record Relay : Type 0 where
  pub nickname : List ℕ
  pub fingerprint : List ℕ
  pub address : List ℕ
  pub or_port : ℤ  -- int
  pub dir_port : ℤ
  pub flags : List (List ℕ)
  pub identity_key : List ℕ
  pub ntor_onion_key : List ℕ

unfoldable pub has_flag_in : List ℕ → List (List ℕ) → Bool
has_flag_in flag [] = false
has_flag_in flag (f ∷ fs) = bytes_eq f flag || has_flag_in flag fs

unfoldable pub has_flag : List ℕ → Relay → Bool
has_flag flag r = has_flag_in flag r.flags

-- "Guard", "Exit", "Stable", "Running" and "Valid"
abbrev pub is_guard : Relay → Bool
is_guard = has_flag (71 ∷ 117 ∷ 97 ∷ 114 ∷ 100 ∷ [])

abbrev pub is_exit : Relay → Bool
is_exit = has_flag (69 ∷ 120 ∷ 105 ∷ 116 ∷ [])

abbrev pub is_stable : Relay → Bool
is_stable = has_flag (83 ∷ 116 ∷ 97 ∷ 98 ∷ 108 ∷ 101 ∷ [])

abbrev pub is_running : Relay → Bool
is_running = has_flag (82 ∷ 117 ∷ 110 ∷ 110 ∷ 105 ∷ 110 ∷ 103 ∷ [])

abbrev pub is_valid : Relay → Bool
is_valid = has_flag (86 ∷ 97 ∷ 108 ∷ 105 ∷ 100 ∷ [])

unfoldable pub has_valid_keys : Relay → Bool
has_valid_keys r = length r.identity_key == 32 && length r.ntor_onion_key == 32

-- What a line is for the parser: an "r " line with its fields, an "s " line with its flags, or none.
pub data Line : Type 0 where
  router : List (List ℕ) → Line
  status : List (List ℕ) → Line
  other : Line

unfoldable pub line_of : List ℕ → Line
unfolding fields
line_of line =
    if bytes_eq (take 2 line) (114 ∷ 32 ∷ [])
    then router (fields line)
    else if bytes_eq (take 2 line) (115 ∷ 32 ∷ [])
    then status (fields (drop 2 line))
    else other

-- The state of the loop: `relays` and `current_relay` point into the heap.
pub record Parser : Type 0 where
  pub heap : List Relay
  pub relays : List ℕ
  pub current_relay : Option ℕ
  pub total_entries : ℕ
  pub malformed_entries : ℕ
  pub port_parse_errors : ℕ

unfoldable pub new_parser : Parser
new_parser = record {
  heap = [];
  relays = [];
  current_relay = none;
  total_entries = 0;
  malformed_entries = 0;
  port_parse_errors = 0;
}

abbrev pub part : List (List ℕ) → ℕ → List ℕ
part parts i = elim (get_elem? parts i) [ none ↦ [] | some p ↦ p ]

-- A port that does not scan stays zero.
abbrev pub port_of : List ℕ → ℤ
port_of s = elim (scan_int s) [ none ↦ pos 0 | some v ↦ v ]

abbrev pub port_error : List ℕ → ℕ
port_error s = elim (scan_int s) [ none ↦ 1 | some _ ↦ 0 ]

unfoldable pub relay_of : List (List ℕ) → Relay
relay_of parts = record {
  nickname = part parts 1;
  fingerprint = part parts 2;
  address = part parts 6;
  or_port = port_of (part parts 7);
  dir_port = port_of (part parts 8);
  flags = [];
  identity_key = [];
  ntor_onion_key = [];
}

-- `relays = append(relays, currentRelay)` where there is one.
abbrev pub append_current : Option ℕ → List ℕ → List ℕ
append_current none relays = relays
append_current (some r) relays = relays ++ (r ∷ [])

unfoldable pub open_entry : List (List ℕ) → Parser → Parser
unfolding relay_of
open_entry parts p = record p {
  heap = p.heap ++ (relay_of parts ∷ []);
  current_relay = some (length p.heap);
  port_parse_errors = p.port_parse_errors + port_error (part parts 7) + port_error (part parts 8);
}

unfoldable pub router_line : List (List ℕ) → Parser → Parser
unfolding open_entry
router_line parts p =
    let q : Parser = record p {
      total_entries = p.total_entries + 1;
      relays = append_current p.current_relay p.relays;
    } in
    if ltb (length parts) 9
    then record q { malformed_entries = q.malformed_entries + 1 }
    else open_entry parts q

abbrev pub set_flags : List (List ℕ) → Option Relay → List Relay → ℕ → List Relay
set_flags flags none heap r = heap
set_flags flags (some relay) heap r = set heap r (record relay { flags = flags })

unfoldable pub status_line : List (List ℕ) → Option ℕ → Parser → Parser
status_line flags none p = p
status_line flags (some r) p = record p { heap = set_flags flags (get_elem? p.heap r) p.heap r }

unfoldable pub parse_line : Line → Parser → Parser
unfolding router_line status_line
parse_line (router parts) p = router_line parts p
parse_line (status flags) p = status_line flags p.current_relay p
parse_line other p = p

unfoldable pub parse_lines : List (List ℕ) → Parser → Parser
unfolding parse_line line_of
parse_lines [] p = p
parse_lines (line ∷ lines) p = parse_lines lines (parse_line (line_of line) p)

pub data DirectoryError : Type 0 where
  read_error excessive_malformed request_failed unexpected_status bad_encoding : DirectoryError
  not_yet_valid expired insufficient_signatures insufficient_authorities : DirectoryError

-- The relays that references point to.
unfoldable pub deref : List Relay → List ℕ → List Relay
deref heap [] = []
deref heap (r ∷ rs) =
    let rest = deref heap rs in elim (get_elem? heap r) [ none ↦ rest | some relay ↦ relay ∷ rest ]

-- The lines that the scanner yields, and whether it ended with an error.
unfoldable pub finish : Bool → Parser → Result DirectoryError (List Relay)
unfolding deref
finish failed p = do
  refuse_if failed read_error
  refuse_if (ltb 0 p.total_entries && ltb (p.total_entries * 10 / 100) p.malformed_entries)
      excessive_malformed
  ok (deref p.heap (append_current p.current_relay p.relays))

unfoldable pub parse_consensus : List (List ℕ) → Bool → Result DirectoryError (List Relay)
unfolding parse_lines new_parser finish
parse_consensus lines failed = finish failed (parse_lines lines new_parser)

-- The answer of an authority: its status code, and what the scanner reads from the body, or `none`
-- where the gzip or zlib header is refused.
pub record Response : Type 0 where
  pub status_code : ℕ
  pub body : Option (List (List ℕ) × Bool)

unfoldable pub fetch_from_authority : Option Response → Result DirectoryError (List Relay)
unfolding parse_consensus
fetch_from_authority none = err request_failed
fetch_from_authority (some r) =
    if r.status_code == 200
    then elim r.body [
      | none ↦ err bad_encoding
      | some (lines, failed) ↦ parse_consensus lines failed
    ]
    else err unexpected_status

abbrev next_authority :
    Result DirectoryError (List Relay)
    → Result (Option DirectoryError) (List Relay)
    → Result (Option DirectoryError) (List Relay)
next_authority (ok relays) later = ok relays
next_authority (err e) later = later

-- The answers of the authorities in order, and the last error before them.
unfoldable pub fetch_consensus :
    Option DirectoryError → List (Option Response) → Result (Option DirectoryError) (List Relay)
unfolding fetch_from_authority
fetch_consensus last [] = err last
fetch_consensus last (a ∷ rest) =
    let later =
      fetch_consensus (elim (fetch_from_authority a) [ ok _ ↦ last | err e ↦ some e ]) rest in
    next_authority (fetch_from_authority a) later

-- Times are nanoseconds.
pub record ConsensusMetadata : Type 0 where
  pub valid_after : ℕ
  pub valid_until : ℕ
  pub signatures : ℕ
  pub authorities : ℕ

abbrev pub max_clock_skew : ℕ
max_clock_skew = 1800 * second

unfoldable pub validate_consensus_metadata :
    ℕ → ConsensusMetadata → Result DirectoryError (Unit {0})
validate_consensus_metadata now m =
    refuse_if (ltb (now + max_clock_skew) m.valid_after) not_yet_valid
    >> refuse_if (ltb (m.valid_until + max_clock_skew) now) expired
    >> refuse_if (ltb m.signatures 2) insufficient_signatures
    >> refuse_if (ltb m.authorities 3) insufficient_authorities
