-- ===== src/Protocol/Tests.antt =====
-- The handshake at concrete cells.
use go_tor.Prelude.{
  ℕ, ◌≡◌, refl, true, List, [], ◌∷◌, none, some, ok, replicate, AreBytes, IsByte, All-replicate,
  arith,
}
use go_tor.Prelude.Subset.{elem}
use go_tor.Cell.Codec.{Cell, new_cell, decode_cell}
use go_tor.Cell.Io.{read_full}
use go_tor.Protocol.{
  HandshakeError, Peer, new_handshake, versions_cell, netinfo_cell, process_versions,
  receive_versions, receive_netinfo, exchange_netinfo, parse_versions, select_version, select_from,
  perform_handshake,
}
use go_tor.Protocol.Versions.{listed}
use go_tor.Protocol.Link.{handshake_fails_over_link}

-- A peer whose cells come without padding: the handshake succeeds.
abbrev unpadded : Peer
unfolding versions_cell netinfo_cell new_cell
unpadded = record {
  accepts_versions = true;
  versions = some versions_cell;
  accepts_netinfo = true;
  netinfo = some (netinfo_cell 0);
}

unpadded_succeeds : (perform_handshake unpadded new_handshake).1 ≡ none
unfolding unpadded perform_handshake exchange_netinfo receive_versions process_versions
    parse_versions select_version select_from elem receive_netinfo versions_cell netinfo_cell
    new_cell
unpadded_succeeds = ground arith

-- A cell that lists 4, 2 and 6.
abbrev listing : Cell
listing = record { circ_id = 0; command = 7; payload = listed (4 ∷ 2 ∷ 6 ∷ []) }

-- A VERSIONS cell as it comes over the link.
abbrev padded : List ℕ
padded = 0 ∷ 0 ∷ 0 ∷ 0 ∷ 7 ∷ 0 ∷ 4 ∷ replicate 507 0

abbrev padded_cell : Cell
padded_cell = record { circ_id = 0; command = 7; payload = 0 ∷ 4 ∷ replicate 507 0 }

abbrev padded_peer : Peer
padded_peer = record {
  accepts_versions = true;
  versions = some padded_cell;
  accepts_netinfo = true;
  netinfo = none;
}

padded_bytes : AreBytes padded
padded_bytes =
    let z : IsByte 0 = omega arith in
    (z, (z, (z, (z, (omega arith, (z, (omega arith, All-replicate IsByte 507 0 z)))))))

padded_decoded : decode_cell padded ≡ ok (padded_cell, [])
unfolding decode_cell read_full
padded_decoded = refl

handshake_fails_over_link_example :
    (e : HandshakeError) × ((perform_handshake padded_peer new_handshake).1 ≡ some e)
handshake_fails_over_link_example =
    handshake_fails_over_link padded_peer new_handshake padded padded_cell [] padded_bytes
      padded_decoded refl
