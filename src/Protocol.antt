-- ===== src/Protocol.antt =====
-- pkg/protocol/protocol.go: the link handshake.
-- A wait for a cell has an outcome: `none` is a timeout, a cancelled context or a failed read. Whether
-- SendCell succeeds is an argument. Durations are nanoseconds. What is logged is left out.
pub mod Versions
pub mod Link
mod Tests
use go_tor.Prelude.{
  ℕ, zero, suc, ◌+◌, ◌-◌, ◌*◌, ◌/◌, ◌%◌, Bool, true, false, not, List, [], ◌∷◌, ◌++◌, Option, none,
  some, Result, ok, err, ltb, ◌==◌, if◌then◌else◌, length, take, be16, be32, of_be16, replicate,
  refuse_if, ◌>>=◌, ◌>>◌,
}
use go_tor.Prelude.Subset.{elem}
use go_tor.Cell.Codec.{Cell, new_cell}

abbrev pub min_link_protocol_version : ℕ
min_link_protocol_version = 3

abbrev pub max_link_protocol_version : ℕ
max_link_protocol_version = 5

abbrev pub preferred_version : ℕ
preferred_version = 4

abbrev pub second : ℕ
second = 1000000000

abbrev pub min_handshake_timeout : ℕ
min_handshake_timeout = 5 * second

abbrev pub max_handshake_timeout : ℕ
max_handshake_timeout = 60 * second

abbrev pub cmd_versions : ℕ
cmd_versions = 7

abbrev pub cmd_netinfo : ℕ
cmd_netinfo = 8

pub record Handshake : Type 0 where
  pub negotiated_version : ℕ
  pub timeout : ℕ

unfoldable pub new_handshake : Handshake
new_handshake = record { negotiated_version = 0; timeout = 10 * second }

pub data HandshakeError : Type 0 where
  timeout_too_short timeout_too_long : HandshakeError
  send_versions_failed versions_not_received not_versions odd_length no_compatible_version :
      HandshakeError
  send_netinfo_failed netinfo_not_received not_netinfo : HandshakeError

unfoldable pub set_timeout : ℕ → Handshake → Result HandshakeError Handshake
set_timeout timeout h = do
  refuse_if (ltb timeout min_handshake_timeout) timeout_too_short
  refuse_if (ltb max_handshake_timeout timeout) timeout_too_long
  ok (record h { timeout = timeout })

-- The cell of `sendVersions`.
unfoldable pub versions_cell : Cell
unfolding new_cell
versions_cell = record (new_cell 0 cmd_versions) {
  payload =
      be16 min_link_protocol_version ++ be16 preferred_version ++ be16 max_link_protocol_version;
}

-- The pairs of bytes, big-endian; the loop runs over an even number of bytes.
unfoldable pub parse_versions : List ℕ → List ℕ
parse_versions (a ∷ b ∷ rest) = of_be16 a b ∷ parse_versions rest
parse_versions _ = []

-- The outer loop of `selectVersion` over the given number of versions, the highest first.
select_from : ℕ → List ℕ → ℕ
select_from zero remote = 0
select_from (suc n) remote =
    let lower = select_from n remote in
    if elem (min_link_protocol_version + n) remote then min_link_protocol_version + n else lower

unfoldable pub select_version : List ℕ → ℕ
unfolding select_from
select_version remote =
    select_from (max_link_protocol_version + 1 - min_link_protocol_version) remote

-- `receiveVersions` from the cell that is received; it sets the version even when it fails.
unfoldable pub process_versions : Cell → Handshake → Handshake × Option HandshakeError
process_versions c h =
    if not (c.command == cmd_versions)
    then (h, some not_versions)
    else if not (length c.payload % 2 == 0)
    then (h, some odd_length)
    else let v = select_version (parse_versions c.payload) in
      (record h { negotiated_version = v }, if v == 0 then some no_compatible_version else none)

unfoldable pub receive_versions : Option Cell → Handshake → Handshake × Option HandshakeError
receive_versions none h = (h, some versions_not_received)
receive_versions (some c) h = process_versions c h

-- The cell of `sendNetinfo`, with the seconds since the epoch, or 0 where they do not fit uint32.
unfoldable pub netinfo_cell : ℕ → Cell
unfolding new_cell
netinfo_cell timestamp = record (new_cell 0 cmd_netinfo) {
  payload = be32 timestamp ++ (4 ∷ 4 ∷ replicate 5 0);
}

unfoldable pub receive_netinfo : Option Cell → Option HandshakeError
receive_netinfo none = some netinfo_not_received
receive_netinfo (some c) = if c.command == cmd_netinfo then none else some not_netinfo

-- What the connection does in a handshake: do the two sends succeed, and what is received.
pub record Peer : Type 0 where
  pub accepts_versions : Bool
  pub versions : Option Cell
  pub accepts_netinfo : Bool
  pub netinfo : Option Cell

-- `PerformHandshake` once VERSIONS has been answered.
exchange_netinfo : Peer → Option HandshakeError → Option HandshakeError
exchange_netinfo p (some e) = some e
exchange_netinfo p none =
    if p.accepts_netinfo then receive_netinfo p.netinfo else some send_netinfo_failed

unfoldable pub perform_handshake : Peer → Handshake → Handshake × Option HandshakeError
unfolding exchange_netinfo
perform_handshake p h =
    if p.accepts_versions
    then (let r = receive_versions p.versions h in (r.0, exchange_netinfo p r.1))
    else (h, some send_versions_failed)
