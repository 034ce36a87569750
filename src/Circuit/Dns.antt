-- ===== src/Circuit/Dns.antt =====
-- pkg/circuit/dns.go: names resolved through a circuit.
-- A string is its bytes; an address is its 4 or 16 bytes.
pub mod Answers
mod Tests
use go_tor.Prelude.{
  ℕ, zero, suc, ◌+◌, ◌-◌, ◌≡◌, Bool, true, false, not, ◌||◌, List, [], ◌∷◌, ◌++◌, Option, none,
  some, Result, ok, err, ltb, ◌==◌, bytes_eq, if◌then◌else◌, length, take, drop, replicate, of_be32,
  refuse_if, ◌>>=◌, ◌>>◌,
}
use go_tor.Cell.Codec.{uint32_of}
use go_tor.Cell.Relay.{RelayCell, new_relay_cell}
use go_tor.Circuit.Core.{Circuit}
use go_tor.Circuit.Flow.{Sent, send_relay_cell}

abbrev pub relay_resolve : ℕ
relay_resolve = 11

abbrev pub relay_resolved : ℕ
relay_resolved = 12

abbrev pub dns_type_hostname : ℕ
dns_type_hostname = 0

abbrev pub dns_type_ipv4 : ℕ
dns_type_ipv4 = 4

abbrev pub dns_type_ipv6 : ℕ
dns_type_ipv6 = 6

abbrev pub dns_type_error : ℕ
dns_type_error = 240

abbrev pub dns_type_error_ttl : ℕ
dns_type_error_ttl = 241

pub record DnsResult : Type 0 where
  pub kind : ℕ  -- `Type`
  pub ttl : ℕ
  pub addresses : List (List ℕ)
  pub hostname : List ℕ
  pub error : ℕ

pub data DnsError : Type 0 where
  empty_data incomplete_data no_records : DnsError
  bad_ipv4_length bad_ipv6_length bad_error_length : DnsError
  empty_hostname no_address invalid_address : DnsError
  send_failed not_received unexpected_command : DnsError
  failed : DnsResult → DnsError  -- the result is returned beside the error

-- The last byte of the string, where it is zero, is cut off.
unfoldable pub cut_zero : List ℕ → List ℕ
cut_zero [] = []
cut_zero (b ∷ []) = if b == 0 then [] else b ∷ []
cut_zero (b ∷ c ∷ bs) = b ∷ cut_zero (c ∷ bs)

-- `net.IPv4`: the address in the last four of 16 bytes.
abbrev pub ipv4_in_16 : List ℕ → List ℕ
ipv4_in_16 a = replicate 10 0 ++ (255 ∷ 255 ∷ a)

abbrev pub first_or_zero : List ℕ → ℕ
first_or_zero [] = 0
first_or_zero (b ∷ bs) = b

-- What a record yields; `none` for a type that is skipped.
unfoldable pub answer_of : ℕ → List ℕ → ℕ → Option (Result DnsError DnsResult)
unfolding cut_zero
answer_of kind value ttl =
    if kind == dns_type_hostname
    then some (
        ok
          (record { kind = kind; ttl = ttl; addresses = []; hostname = cut_zero value; error = 0 }))
    else if kind == dns_type_ipv4
    then some (
        refuse_if (not (length value == 4)) bad_ipv4_length
        >> ok (record {
          kind = kind;
          ttl = ttl;
          addresses = ipv4_in_16 value ∷ [];
          hostname = [];
          error = 0;
        }))
    else if kind == dns_type_ipv6
    then some (
        refuse_if (not (length value == 16)) bad_ipv6_length
        >> ok (record { kind = kind; ttl = ttl; addresses = value ∷ []; hostname = []; error = 0 }))
    else if kind == dns_type_error || kind == dns_type_error_ttl
    then some (
        refuse_if (ltb (length value) 1) bad_error_length
        >> ok (record {
          kind = kind;
          ttl = ttl;
          addresses = [];
          hostname = [];
          error = first_or_zero value;
        }))
    else none

abbrev pub or_next :
    Option (Result DnsError DnsResult) → Result DnsError DnsResult → Result DnsError DnsResult
or_next none next = next
or_next (some r) next = r

-- The loop from `data[offset:]`, in at most `fuel` rounds.
unfoldable pub parse_records : ℕ → List ℕ → Result DnsError DnsResult
unfolding answer_of
parse_records zero bytes = err no_records
parse_records (suc fuel) [] = err no_records
parse_records (suc fuel) (kind ∷ []) = err no_records
parse_records (suc fuel) (kind ∷ n ∷ bytes) =
    let next = parse_records fuel (drop (n + 4) bytes) in
    if ltb (length bytes) (n + 4)
    then err incomplete_data
    else or_next (answer_of kind (take n bytes) (uint32_of (take 4 (drop n bytes)))) next

-- Each round takes two bytes or more, so the length is fuel enough.
unfoldable pub parse_resolved_cell : List ℕ → Result DnsError DnsResult
unfolding parse_records
parse_resolved_cell bytes =
    if length bytes == 0 then err empty_data else parse_records (length bytes) bytes

-- The checks on the parsed cell.
abbrev pub check_result : DnsResult → Result DnsError DnsResult
check_result r =
    if r.kind == dns_type_error || r.kind == dns_type_error_ttl then err (failed r) else ok r

-- The answer from the cell that ReceiveRelayCell returns; `none` is a call that timed out.
unfoldable pub await_resolved : Option RelayCell → Result DnsError DnsResult
unfolding parse_resolved_cell
await_resolved none = err not_received
await_resolved (some rc) = do
  refuse_if (not (rc.command == relay_resolved)) unexpected_command
  r ← parse_resolved_cell rc.bytes
  check_result r

-- `ip.To4()` and `ip.To16()`
unfoldable pub to4 : List ℕ → Option (List ℕ)
to4 ip =
    if length ip == 4
    then some ip
    else if length ip == 16
    then if bytes_eq (take 12 ip) (replicate 10 0 ++ (255 ∷ 255 ∷ []))
      then some (drop 12 ip)
      else none
    else none

abbrev pub pointer_payload : Option (List ℕ) → List ℕ → Option (List ℕ)
pointer_payload (some v4) ip = some (dns_type_ipv4 ∷ 4 ∷ v4)
pointer_payload none ip = if length ip == 16 then some (dns_type_ipv6 ∷ 16 ∷ ip) else none

module _ (sha1 : List ℕ → List ℕ) where
  -- The RESOLVE cell is sent, then the next cell of the circuit is received.
  unfoldable pub resolve :
      ℕ → Bool → List ℕ → Option RelayCell → Circuit → Sent × Result DnsError DnsResult
  unfolding await_resolved
  resolve now accepts payload received c =
      let s = send_relay_cell sha1 now accepts (new_relay_cell 0 relay_resolve payload) c in
      (s, elim s.error [ some _ ↦ err send_failed | none ↦ await_resolved received ])

  -- `none` where no cell is sent.
  unfoldable pub resolve_hostname :
      ℕ → Bool → List ℕ → Option RelayCell → Circuit → Option Sent × Result DnsError DnsResult
  unfolding resolve
  resolve_hostname now accepts [] received c = (none, err empty_hostname)
  resolve_hostname now accepts (b ∷ bs) received c =
      let (s, r) = resolve now accepts ((b ∷ bs) ++ (0 ∷ [])) received c in (some s, r)

  abbrev resolve_payload :
      ℕ
      → Bool
      → Option (List ℕ)
      → Option RelayCell
      → Circuit
      → Option Sent × Result DnsError DnsResult
  resolve_payload now accepts none received c = (none, err invalid_address)
  resolve_payload now accepts (some payload) received c =
      let (s, r) = resolve now accepts payload received c in (some s, r)

  -- A nil address is `none`.
  unfoldable pub resolve_ip :
      ℕ
      → Bool
      → Option (List ℕ)
      → Option RelayCell
      → Circuit
      → Option Sent × Result DnsError DnsResult
  unfolding resolve to4
  resolve_ip now accepts none received c = (none, err no_address)
  resolve_ip now accepts (some ip) received c =
      resolve_payload now accepts (pointer_payload (to4 ip) ip) received c
